-- ===== src/Signature/Tests.antt =====
-- The theorems on signatures at concrete inputs, with a toy digest, encoding and signature.
use ddns.Prelude.{
  false, ℕ, zero, suc, ◌+◌, ◌<◌, ◌%◌, ◌≡◌, refl, ap, ◌∙◌, arith, true, if◌then◌else◌, List, [], ◌∷◌,
  All, Option, none, some, length,
}
use ddns.Name.Defs.{name_eq}
use ddns.MultiResponse.Defs.{SignatureFields}
use ddns.Signature.Schemes.{
  Text, ed25519, ed25519_name, is_token, alg_name_for_scheme, scheme_for_alg_name,
  scheme_for_alg_name-alg_name_for_scheme,
}
use ddns.Signature.Text.{hex}
use ddns.Signature.Defs.{
  keyid_for_cert, oid_sig_ed25519, canonical_scheme_for_spki, Crypto, LocalAuthority, sign,
  verify_fields, success, failure, digest_mismatch,
}
use ddns.Signature.Authority.{IsLocalAuthority}
use ddns.Signature.Fields.{IsCrypto, name_eq_refl}
use ddns.Signature.RoundTrip.{verify_fields-sign, verify_fields_stranger}

-- A number is so many ones and a zero.
abbrev ones : ℕ → Text → Text
ones zero s = 0 ∷ s
ones (suc n) s = 1 ∷ ones n s

abbrev unary : List ℕ → Text
unary [] = []
unary (n ∷ ns) = ones n (unary ns)

abbrev onto : ℕ → Option (List ℕ) → Option (List ℕ)
onto n none = none
onto n (some ns) = some (n ∷ ns)

abbrev read_unary : ℕ → Text → Option (List ℕ)
read_unary zero [] = some []
read_unary (suc n) [] = none
read_unary n (zero ∷ s) = onto n (read_unary 0 s)
read_unary n (suc c ∷ s) = read_unary (suc n) s

read_ones : (k n : ℕ) (s : Text) → read_unary k (ones n s) ≡ onto (k + n) (read_unary 0 s)
read_ones k zero s = ap (λ m. onto m (read_unary 0 s)) (omega arith)
read_ones k (suc n) s = read_ones (suc k) n s ∙ ap (λ m. onto m (read_unary 0 s)) (omega arith)

read_unary-unary : (ns : List ℕ) → read_unary 0 (unary ns) ≡ some ns
read_unary-unary [] = refl
read_unary-unary (n ∷ ns) =
    read_ones 0 n (unary ns)
    ∙ ap (λ m. onto m (read_unary 0 (unary ns))) (omega arith)
    ∙ ap (onto n) (read_unary-unary ns)

ones_ascii : (n : ℕ) (s : Text) → All (λ b. b < 128) s → All (λ b. b < 128) (ones n s)
ones_ascii zero s h = (omega arith, h)
ones_ascii (suc n) s h = (omega arith, ones_ascii n s h)

unary_ascii : (ns : List ℕ) → All (λ b. b < 128) (unary ns)
unary_ascii [] = tt
unary_ascii (n ∷ ns) = ones_ascii n (unary ns) (unary_ascii ns)

abbrev toy_crypto : Crypto
toy_crypto = record {
  sha256 = λ bs. length bs % 256 ∷ [];
  base64_encode = unary;
  base64_decode = read_unary 0;
  parse_x509_certificate = λ cert. some cert;
  from_der = λ spki.
      some (record { algorithm = oid_sig_ed25519; parameters = none; subject_public_key = spki });
  ring_verify = λ scheme key data_ signature. name_eq data_ signature;
}

toy_laws : IsCrypto toy_crypto
toy_laws = record {
  base64_ascii = unary_ascii;
  base64_decodes = read_unary-unary;
  digest_bytes = λ bs. (ground arith, tt);
}

abbrev toy_authority : LocalAuthority
toy_authority = record {
  certificates = (1 ∷ 2 ∷ []) ∷ [];
  public_key = 1 ∷ 2 ∷ [];
  sign = λ scheme data_. some data_;
}

toy_local : IsLocalAuthority toy_crypto toy_authority (1 ∷ 2 ∷ [])
unfolding canonical_scheme_for_spki
toy_local = record {
  others = [];
  certificates_are = refl;
  certified = refl;
  key = record { algorithm = oid_sig_ed25519; parameters = none; subject_public_key = 1 ∷ 2 ∷ [] };
  key_is = refl;
  scheme = ed25519;
  scheme_is = refl;
  signature_of = λ data_. data_;
  signs = λ data_. refl;
  verifies = λ data_. name_eq_refl data_;
}

verify_fields-sign_example :
    (f : SignatureFields) × (sign toy_crypto toy_authority 1700000000 (7 ∷ []) ≡ success f)
    × (verify_fields toy_crypto f (7 ∷ 8 ∷ []) (1 ∷ 2 ∷ []) ≡ (
        if name_eq (toy_crypto.sha256 (7 ∷ [])) (toy_crypto.sha256 (7 ∷ 8 ∷ []))
        then success true
        else failure digest_mismatch))
verify_fields-sign_example =
    verify_fields-sign toy_crypto toy_laws toy_authority (1 ∷ 2 ∷ []) toy_local 1700000000
      (ground arith) (7 ∷ []) (7 ∷ 8 ∷ [])

ed25519_named : alg_name_for_scheme ed25519 ≡ some ed25519_name
unfolding alg_name_for_scheme
ed25519_named = refl

scheme_for_alg_name-alg_name_for_scheme_example :
    (scheme_for_alg_name ed25519_name ≡ some ed25519) × All (λ b. is_token b ≡ true) ed25519_name
scheme_for_alg_name-alg_name_for_scheme_example =
    scheme_for_alg_name-alg_name_for_scheme ed25519 ed25519_name ed25519_named

other_key :
    name_eq (keyid_for_cert toy_crypto (1 ∷ 2 ∷ [])) (keyid_for_cert toy_crypto (1 ∷ [])) ≡ false
unfolding keyid_for_cert hex name_eq
other_key = refl

verify_fields_stranger_example :
    (f : SignatureFields) × (sign toy_crypto toy_authority 1700000000 (7 ∷ []) ≡ success f)
    × (verify_fields toy_crypto f (7 ∷ []) (1 ∷ []) ≡ success false)
verify_fields_stranger_example =
    verify_fields_stranger toy_crypto toy_laws toy_authority (1 ∷ 2 ∷ []) toy_local 1700000000
      (ground arith) (7 ∷ []) (1 ∷ []) other_key
