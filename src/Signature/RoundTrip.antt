-- ===== src/Signature/RoundTrip.antt =====
-- `sign` and `verify` together.
use ddns.Prelude.{false, ℕ, ◌<◌, ◌^◌, ◌≡◌, true, Bool-cases, inl, inr, if◌then◌else◌}
use ddns.Prelude.{List, ◌++◌, All, some}
use ddns.Name.Defs.{name_eq}
use ddns.MultiResponse.Defs.{SignatureFields}
use ddns.Signature.Schemes.{
  Text, is_token, alg_name_for_scheme, scheme_for_alg_name-alg_name_for_scheme,
}
use ddns.Signature.Authority.{IsLocalAuthority, verify_named, canonical_scheme_named}
use ddns.Signature.Input.{params_of, parse_signature_input-signature_input_value}
use ddns.Signature.Words.{base_digest, base_params, covered}
use ddns.Signature.Defs.{
  Crypto, LocalAuthority, digest_mismatch, success, failure, content_digest_value, keyid_for_cert,
  signature_value, signature_input_value, signature_base, sign, verify_fields, verify_nonempty,
  verify_signed, is_empty_fields, parse_signature_input, ParsedSignatureInput,
}
use ddns.Signature.Fields.{
  IsCrypto, content_digest_value-IsAscii, digest_checked, field_str-IsAscii, keyid_token,
  name_eq_refl, signature_input_value-IsAscii, signature_parsed, signature_value-IsAscii,
}

module _ (c : Crypto) (laws : IsCrypto c) (authority : LocalAuthority) (cert : List ℕ)
    (h : IsLocalAuthority c authority cert) (created : ℕ) (small : created < 2 ^ 64) where
  alg_named : (alg : Text) × (alg_name_for_scheme h.scheme ≡ some alg)
  alg_named = canonical_scheme_named c authority.public_key h.key h.scheme h.key_is h.scheme_is

  abbrev alg_of : Text
  alg_of = alg_named.0

  abbrev input : Text
  input = signature_input_value created (keyid_for_cert c cert) alg_of

  alg_token : All (λ b. is_token b ≡ true) alg_of
  alg_token = (scheme_for_alg_name-alg_name_for_scheme h.scheme alg_of alg_named.1).1

  abbrev read_input : ParsedSignatureInput
  read_input = record {
    signature_params = covered ++ params_of created (keyid_for_cert c cert) alg_of;
    alg = alg_of;
    keyid = keyid_for_cert c cert;
  }

  input_parsed : parse_signature_input input ≡ success read_input
  input_parsed =
      parse_signature_input-signature_input_value created (keyid_for_cert c cert) alg_of small
        (keyid_token c cert laws) alg_token

  abbrev base : List ℕ → Text
  base dns =
      base_digest ++ (content_digest_value c dns ++ (base_params ++ read_input.signature_params))

  base_is : (dns : List ℕ) → signature_base (content_digest_value c dns) input ≡ success (base dns)
  unfolding signature_base
  base_is dns = rw input_parsed

  abbrev fields : List ℕ → SignatureFields
  fields dns = record {
    content_digest = content_digest_value c dns;
    signature_input = input;
    signature = signature_value c (h.signature_of (base dns));
  }

  sign_fields : (dns : List ℕ) → sign c authority created dns ≡ success (fields dns)
  unfolding sign
  sign_fields dns =
      rw (h.certificates_are, h.scheme_is, alg_named.1, base_is dns, h.signs (base dns))

  signed_accepted :
      (dns : List ℕ)
      → verify_signed c (fields dns) cert (content_digest_value c dns) read_input ≡ success true
  unfolding verify_signed
  signed_accepted dns = rw (
    (scheme_for_alg_name-alg_name_for_scheme h.scheme alg_of alg_named.1).0,
    field_str-IsAscii (signature_value c (h.signature_of (base dns)))
        (signature_value-IsAscii c (h.signature_of (base dns)) laws),
    signature_parsed c (h.signature_of (base dns)) laws,
    base_is dns,
    h.certified,
    verify_named c authority.public_key h.scheme alg_of (base dns) (h.signature_of (base dns)) h.key
        alg_named.1 h.key_is,
    h.verifies (base dns),
  )

  verify_made :
      (dns other : List ℕ)
      → verify_nonempty c (fields dns) other cert ≡ (
          if name_eq (c.sha256 dns) (c.sha256 other) then success true else failure digest_mismatch)
  unfolding verify_nonempty
  verify_made dns other = elim (Bool-cases (name_eq (c.sha256 dns) (c.sha256 other))) [
    | inl same ↦
        rw
          (
            field_str-IsAscii (content_digest_value c dns)
                (content_digest_value-IsAscii c dns laws),
            digest_checked c dns other laws,
            same,
            field_str-IsAscii input (
                signature_input_value-IsAscii created (keyid_for_cert c cert) alg_of
                  (keyid_token c cert laws) alg_token),
            input_parsed,
            name_eq_refl (keyid_for_cert c cert),
          )
          (signed_accepted dns)
    | inr changed ↦ rw (
      field_str-IsAscii (content_digest_value c dns) (content_digest_value-IsAscii c dns laws),
      digest_checked c dns other laws,
      changed,
    )
  ]

  verify_made_stranger :
      (dns stranger : List ℕ)
      → name_eq (keyid_for_cert c cert) (keyid_for_cert c stranger) ≡ false
      → verify_nonempty c (fields dns) dns stranger ≡ success false
  unfolding verify_nonempty
  verify_made_stranger dns stranger differs = rw (
    field_str-IsAscii (content_digest_value c dns) (content_digest_value-IsAscii c dns laws),
    digest_checked c dns dns laws,
    name_eq_refl (c.sha256 dns),
    field_str-IsAscii input (
        signature_input_value-IsAscii created (keyid_for_cert c cert) alg_of
          (keyid_token c cert laws) alg_token),
    input_parsed,
    differs,
  )

-- An authority whose key verifies its signatures signs every packet, at any time that a `u64` can say;
-- `verify` accepts the fields with the authority's certificate for each packet with the same digest, and
-- for any other packet it fails with a digest mismatch.
pub verify_fields-sign :
    (c : Crypto)
    → IsCrypto c
    → (authority : LocalAuthority) (cert : List ℕ) → IsLocalAuthority c authority cert
    → (created : ℕ) → created < 2 ^ 64
    → (dns other : List ℕ)
    → (f : SignatureFields) × (sign c authority created dns ≡ success f)
      × (verify_fields c f other cert ≡ (
          if name_eq (c.sha256 dns) (c.sha256 other)
          then success true
          else failure digest_mismatch))
unfolding verify_fields is_empty_fields content_digest_value
verify_fields-sign c laws authority cert h created small dns other = (
  fields c laws authority cert h created small dns,
  sign_fields c laws authority cert h created small dns,
  verify_made c laws authority cert h created small dns other,
)

-- What the authority signs is not taken to be signed by another certificate: with one whose key id differs,
-- `verify` answers false and no error.
pub verify_fields_stranger :
    (c : Crypto)
    → IsCrypto c
    → (authority : LocalAuthority) (cert : List ℕ) → IsLocalAuthority c authority cert
    → (created : ℕ) → created < 2 ^ 64
    → (dns stranger : List ℕ) → name_eq (keyid_for_cert c cert) (keyid_for_cert c stranger) ≡ false
    → (f : SignatureFields) × (sign c authority created dns ≡ success f)
      × (verify_fields c f dns stranger ≡ success false)
unfolding verify_fields is_empty_fields content_digest_value
verify_fields_stranger c laws authority cert h created small dns stranger differs = (
  fields c laws authority cert h created small dns,
  sign_fields c laws authority cert h created small dns,
  verify_made_stranger c laws authority cert h created small dns stranger differs,
)
