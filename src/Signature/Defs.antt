-- ===== src/Signature/Defs.antt =====
-- The signature fields: how they are made (`SignatureFields::sign`) and checked (`verify`). The digest,
-- base64, the certificate parser and the signatures are third-party code, the fields of `Crypto`.
use ddns.Prelude.{
  ℕ, Bool, true, false, not, ◌&&◌, if◌then◌else◌, List, [], ◌∷◌, ◌++◌, retain, Option, none, some,
}
use ddns.Name.Defs.{name_eq}
use ddns.Utf8.{from_utf8_lossy}
use ddns.MultiResponse.Defs.{SignatureFields}
use ddns.Signature.Schemes.{
  Text, SignatureScheme, unknown, ed25519, ecdsa_nistp256_sha256, ecdsa_nistp384_sha384,
  rsa_pss_sha256, rsa_pss_sha384, rsa_pss_sha512, rsa_pkcs1_sha256, rsa_pkcs1_sha384,
  rsa_pkcs1_sha512, alg_name_for_scheme, scheme_for_alg_name,
}
use ddns.Signature.Words.{
  digest_prefix, signature_prefix, signature_input_prefix, label_prefix, covered, created_prefix,
  keyid_prefix, alg_prefix, fingerprint_prefix, base_digest, base_params, semicolon, colon, quote,
}
use ddns.Signature.Text.{display_u64, parse_u64, hex, strip_prefix, strip_last, split}

-- What the code compares object identifiers with, or another one by its number.
pub data Oid : Type 0 where
  oid_sig_ed25519 oid_pkcs1_rsaencryption oid_key_type_ec_public_key oid_ec_p256 oid_nist_ec_p384 :
      Oid
  other_oid : ℕ → Oid

pub record SubjectPublicKeyInfo : Type 0 where
  pub algorithm : Oid
  pub parameters : Option Oid
  pub subject_public_key : List ℕ

pub record Crypto : Type 0 where
  pub sha256 : List ℕ → List ℕ
  pub base64_encode : List ℕ → Text
  pub base64_decode : Text → Option (List ℕ)
  -- The public key of a certificate, as it stands there.
  pub parse_x509_certificate : List ℕ → Option (List ℕ)
  pub from_der : List ℕ → Option SubjectPublicKeyInfo
  -- The verification of `ring`: the scheme's algorithm, the key, the data and the signature.
  pub ring_verify : SignatureScheme → List ℕ → List ℕ → List ℕ → Bool

pub record LocalAuthority : Type 0 where
  pub certificates : List (List ℕ)
  pub public_key : List ℕ
  pub sign : SignatureScheme → List ℕ → Option (List ℕ)

abbrev pub scheme_of_curve : Oid → Option SignatureScheme
scheme_of_curve oid_ec_p256 = some ecdsa_nistp256_sha256
scheme_of_curve oid_nist_ec_p384 = some ecdsa_nistp384_sha384
scheme_of_curve oid_sig_ed25519 = none
scheme_of_curve oid_pkcs1_rsaencryption = none
scheme_of_curve oid_key_type_ec_public_key = none
scheme_of_curve (other_oid n) = none

abbrev pub scheme_of_key : Oid → Option Oid → Option SignatureScheme
scheme_of_key oid_sig_ed25519 parameters = some ed25519
scheme_of_key oid_pkcs1_rsaencryption parameters = some rsa_pss_sha512
scheme_of_key oid_key_type_ec_public_key none = none
scheme_of_key oid_key_type_ec_public_key (some curve) = scheme_of_curve curve
scheme_of_key oid_ec_p256 parameters = none
scheme_of_key oid_nist_ec_p384 parameters = none
scheme_of_key (other_oid n) parameters = none

unfoldable pub canonical_scheme_for_spki : Crypto → List ℕ → Option SignatureScheme
canonical_scheme_for_spki c spki = elim (c.from_der spki) [
  | none ↦ none
  | some key ↦ scheme_of_key key.algorithm key.parameters
]

pub data FieldName : Type 0 where
  content_digest_header signature_input_header signature_header : FieldName

pub data SignatureFieldsError : Type 0 where
  missing_certificate invalid_utf8 invalid_base64 digest_mismatch key_id_mismatch sign_failed
        invalid_certificate verify_failed :
      SignatureFieldsError
  unsupported_scheme : SignatureScheme → SignatureFieldsError
  unsupported_algorithm : Text → SignatureFieldsError
  invalid_field : FieldName → SignatureFieldsError

pub data Result (A : Type 0) : Type 0 where
  success : A → Result A
  failure : SignatureFieldsError → Result A

infixl 5 ◌>>=◌
abbrev pub ◌>>=◌ : {A B : Type 0} → Result A → (A → Result B) → Result B
success a >>= f = f a
failure e >>= f = failure e

-- `ok_or`
abbrev pub ok_or : {A : Type 0} → Option A → SignatureFieldsError → Result A
ok_or none e = failure e
ok_or (some a) e = success a

abbrev pub quoted : Text → Text
quoted s = quote ∷ (s ++ (quote ∷ []))

abbrev pub is_nil : Text → Bool
is_nil [] = true
is_nil (c ∷ cs) = false

unfoldable pub is_empty_fields : SignatureFields → Bool
is_empty_fields f = is_nil f.content_digest && is_nil f.signature_input && is_nil f.signature

-- `str::from_utf8`: text is what the lossy conversion leaves as it is.
unfoldable pub field_str : List ℕ → Result Text
field_str field =
    if name_eq (from_utf8_lossy field) field then success field else failure invalid_utf8

unfoldable pub signature_input_value : ℕ → Text → Text → Text
signature_input_value created keyid alg =
    signature_input_prefix
    ++ (semicolon ∷ created_prefix
        ++ (display_u64 created
            ++ (semicolon ∷ keyid_prefix
                ++ (quoted keyid ++ (semicolon ∷ alg_prefix ++ quoted alg)))))

unfoldable pub unquote : Text → Option Text
unquote value = elim (strip_prefix (quote ∷ []) value) [
  | none ↦ none
  | some rest ↦ strip_last quote rest
]

-- What the loop over the parameters has found: each later one replaces an earlier one of its name.
pub record Params : Type 0 where
  pub created : Option ℕ
  pub keyid : Option Text
  pub alg : Option Text

unfoldable pub parse_param : Params → Text → Result Params
parse_param p param = elim (strip_prefix created_prefix param) [
  | some value ↦ success (record p { created = parse_u64 value })
  | none ↦ elim (strip_prefix keyid_prefix param) [
    | some value ↦ success (record p { keyid = unquote value })
    | none ↦ elim (strip_prefix alg_prefix param) [
      | some value ↦ success (record p { alg = unquote value })
      | none ↦ failure (invalid_field signature_input_header)
    ]
  ]
]

unfoldable pub parse_params : Params → List Text → Result Params
parse_params p [] = success p
parse_params p (param ∷ params) = parse_param p param >>= (λ q. parse_params q params)

pub record ParsedSignatureInput : Type 0 where
  pub signature_params : Text
  pub alg : Text
  pub keyid : Text

unfoldable pub parsed : Text → Params → Result ParsedSignatureInput
parsed signature_params p = do
  created ← ok_or p.created (invalid_field signature_input_header)
  keyid ← ok_or p.keyid (invalid_field signature_input_header)
  alg ← ok_or p.alg (invalid_field signature_input_header)
  success (record { signature_params = signature_params; alg = alg; keyid = keyid })

unfoldable pub parse_signature_input : Text → Result ParsedSignatureInput
parse_signature_input input = do
  checked ← ok_or (strip_prefix signature_input_prefix input) (invalid_field signature_input_header)
  signature_params ← ok_or (strip_prefix label_prefix input) (invalid_field signature_input_header)
  params ← ok_or (strip_prefix covered signature_params) (invalid_field signature_input_header)
  p ←
      parse_params (record { created = none; keyid = none; alg = none })
        (retain (λ part. not (is_nil part)) (split semicolon params))
  parsed signature_params p

unfoldable pub signature_base : Text → Text → Result Text
signature_base content_digest signature_input = do
  input ← parse_signature_input signature_input
  success (base_digest ++ (content_digest ++ (base_params ++ input.signature_params)))

module _ (c : Crypto) where
  unfoldable pub content_digest_value : List ℕ → Text
  content_digest_value dns = digest_prefix ++ (c.base64_encode (c.sha256 dns) ++ (colon ∷ []))

  unfoldable pub keyid_for_cert : List ℕ → Text
  keyid_for_cert cert = fingerprint_prefix ++ hex (c.sha256 cert)

  unfoldable pub signature_value : List ℕ → Text
  signature_value signature = signature_prefix ++ (c.base64_encode signature ++ (colon ∷ []))

  -- What stands between the prefix of a field and its last colon.
  abbrev pub encoded : Text → FieldName → Text → Result Text
  encoded pre header value =
      ok_or (elim (strip_prefix pre value) [ none ↦ none | some rest ↦ strip_last colon rest ])
        (invalid_field header)

  unfoldable pub verify_content_digest : Text → List ℕ → Result (Unit {0})
  verify_content_digest content_digest dns = do
    text ← encoded digest_prefix content_digest_header content_digest
    decoded ← ok_or (c.base64_decode text) invalid_base64
    if name_eq decoded (c.sha256 dns) then success tt else failure digest_mismatch

  unfoldable pub parse_signature : Text → Result (List ℕ)
  parse_signature input = do
    text ← encoded signature_prefix signature_header input
    ok_or (c.base64_decode text) invalid_base64

  abbrev first_certificate : List (List ℕ) → Option (List ℕ)
  first_certificate [] = none
  first_certificate (cert ∷ certs) = some cert

  -- `created` is the time of the call.
  unfoldable pub sign : LocalAuthority → ℕ → List ℕ → Result SignatureFields
  sign authority created dns = do
    cert ← ok_or (first_certificate authority.certificates) missing_certificate
    let content_digest = content_digest_value dns
    scheme ←
        ok_or (canonical_scheme_for_spki c authority.public_key) (unsupported_scheme (unknown 0))
    alg ← ok_or (alg_name_for_scheme scheme) (unsupported_scheme scheme)
    let signature_input = signature_input_value created (keyid_for_cert cert) alg
    base ← signature_base content_digest signature_input
    signature ← ok_or (authority.sign scheme base) sign_failed
    success (record {
      content_digest = content_digest;
      signature_input = signature_input;
      signature = signature_value signature;
    })

  abbrev verify_supported : List ℕ → SignatureScheme → List ℕ → List ℕ → Option Bool
  verify_supported spki scheme data_ signature = some (elim (c.from_der spki) [
    | none ↦ false
    | some key ↦ c.ring_verify scheme key.subject_public_key data_ signature
  ])

  -- A scheme that is not in the table is an error.
  unfoldable pub verify : List ℕ → SignatureScheme → List ℕ → List ℕ → Option Bool
  verify spki ecdsa_nistp384_sha384 data_ signature =
      verify_supported spki ecdsa_nistp384_sha384 data_ signature
  verify spki ecdsa_nistp256_sha256 data_ signature =
      verify_supported spki ecdsa_nistp256_sha256 data_ signature
  verify spki ed25519 data_ signature = verify_supported spki ed25519 data_ signature
  verify spki rsa_pkcs1_sha256 data_ signature =
      verify_supported spki rsa_pkcs1_sha256 data_ signature
  verify spki rsa_pkcs1_sha384 data_ signature =
      verify_supported spki rsa_pkcs1_sha384 data_ signature
  verify spki rsa_pkcs1_sha512 data_ signature =
      verify_supported spki rsa_pkcs1_sha512 data_ signature
  verify spki rsa_pss_sha256 data_ signature = verify_supported spki rsa_pss_sha256 data_ signature
  verify spki rsa_pss_sha384 data_ signature = verify_supported spki rsa_pss_sha384 data_ signature
  verify spki rsa_pss_sha512 data_ signature = verify_supported spki rsa_pss_sha512 data_ signature
  verify spki (unknown code) data_ signature = none

  -- What follows once the key id is the certificate's.
  unfoldable pub verify_signed :
      SignatureFields → List ℕ → Text → ParsedSignatureInput → Result Bool
  verify_signed f cert content_digest input = do
    scheme ← ok_or (scheme_for_alg_name input.alg) (unsupported_algorithm input.alg)
    text ← field_str f.signature
    signature ← parse_signature text
    base ← signature_base content_digest f.signature_input
    key ← ok_or (c.parse_x509_certificate cert) invalid_certificate
    ok_or (verify key scheme base signature) verify_failed

  unfoldable pub verify_nonempty : SignatureFields → List ℕ → List ℕ → Result Bool
  verify_nonempty f dns cert = do
    content_digest ← field_str f.content_digest
    checked ← verify_content_digest content_digest dns
    signature_input ← field_str f.signature_input
    input ← parse_signature_input signature_input
    if not (name_eq input.keyid (keyid_for_cert cert))
        then success false
        else verify_signed f cert content_digest input

  unfoldable pub verify_fields : SignatureFields → List ℕ → List ℕ → Result Bool
  verify_fields f dns cert = if is_empty_fields f then success false else verify_nonempty f dns cert
