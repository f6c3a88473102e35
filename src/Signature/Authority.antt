-- ===== src/Signature/Authority.antt =====
-- The schemes of public keys and their names.
use ddns.Prelude.{ℕ, ◌≡◌, refl, sym, subst, ◌∙◌, true}
use ddns.Prelude.{List, ◌∷◌, Option, none, some}
use ddns.Signature.Schemes.{
  Text, SignatureScheme, unknown, ed25519, ecdsa_nistp256_sha256, ecdsa_nistp384_sha384,
  rsa_pss_sha256, rsa_pss_sha384, rsa_pss_sha512, rsa_pkcs1_sha256, rsa_pkcs1_sha384,
  rsa_pkcs1_sha512, ed25519_name, ecdsa_nistp256_sha256_name, ecdsa_nistp384_sha384_name,
  rsa_pss_sha512_name, alg_name_for_scheme,
}
use mathlib.Core.Option.{some-injective, none-ne-some}
use ddns.Signature.Defs.{
  Oid, SubjectPublicKeyInfo, oid_sig_ed25519, oid_pkcs1_rsaencryption, oid_key_type_ec_public_key,
  oid_ec_p256, oid_nist_ec_p384, other_oid, scheme_of_curve, scheme_of_key,
  canonical_scheme_for_spki, verify, Crypto, LocalAuthority,
}

-- An authority whose certificate has its public key, of a kind with a scheme, and whose signatures that
-- key verifies.
pub record IsLocalAuthority (c : Crypto) (authority : LocalAuthority) (cert : List ℕ) : Type 0 where
  pub others : List (List ℕ)
  pub certificates_are : authority.certificates ≡ cert ∷ others
  pub certified : c.parse_x509_certificate cert ≡ some authority.public_key
  pub key : SubjectPublicKeyInfo
  pub key_is : c.from_der authority.public_key ≡ some key
  pub scheme : SignatureScheme
  pub scheme_is : canonical_scheme_for_spki c authority.public_key ≡ some scheme
  pub signature_of : List ℕ → List ℕ
  pub signs : (data_ : List ℕ) → authority.sign scheme data_ ≡ some (signature_of data_)
  pub verifies :
      (data_ : List ℕ)
      → c.ring_verify scheme key.subject_public_key data_ (signature_of data_) ≡ true

-- The verifier knows each scheme that has a name.
pub verify_named :
    (c : Crypto) (spki : List ℕ) (scheme : SignatureScheme) (alg : Text) (data_ signature : List ℕ)
    (key : SubjectPublicKeyInfo)
    → alg_name_for_scheme scheme ≡ some alg
    → c.from_der spki ≡ some key
    → verify c spki scheme data_ signature
      ≡ some (c.ring_verify scheme key.subject_public_key data_ signature)
unfolding verify alg_name_for_scheme
verify_named c spki ed25519 alg data_ signature key h k = rw (k)
verify_named c spki ecdsa_nistp256_sha256 alg data_ signature key h k = rw (k)
verify_named c spki ecdsa_nistp384_sha384 alg data_ signature key h k = rw (k)
verify_named c spki rsa_pss_sha256 alg data_ signature key h k = rw (k)
verify_named c spki rsa_pss_sha384 alg data_ signature key h k = rw (k)
verify_named c spki rsa_pss_sha512 alg data_ signature key h k = rw (k)
verify_named c spki rsa_pkcs1_sha256 alg data_ signature key h k = rw (k)
verify_named c spki rsa_pkcs1_sha384 alg data_ signature key h k = rw (k)
verify_named c spki rsa_pkcs1_sha512 alg data_ signature key h k = rw (k)
verify_named c spki (unknown code) alg data_ signature key h k = absurd (none-ne-some alg h)

-- Each scheme of a key has a name.
scheme_of_curve_named :
    (curve : Oid) (s : SignatureScheme)
    → scheme_of_curve curve ≡ some s
    → (alg : Text) × (alg_name_for_scheme s ≡ some alg)
unfolding alg_name_for_scheme
scheme_of_curve_named oid_ec_p256 s h =
    subst (λ t. (alg : Text) × (alg_name_for_scheme t ≡ some alg))
      (some-injective ecdsa_nistp256_sha256 s h) (ecdsa_nistp256_sha256_name, refl)
scheme_of_curve_named oid_nist_ec_p384 s h =
    subst (λ t. (alg : Text) × (alg_name_for_scheme t ≡ some alg))
      (some-injective ecdsa_nistp384_sha384 s h) (ecdsa_nistp384_sha384_name, refl)
scheme_of_curve_named oid_sig_ed25519 s h = absurd (none-ne-some s h)
scheme_of_curve_named oid_pkcs1_rsaencryption s h = absurd (none-ne-some s h)
scheme_of_curve_named oid_key_type_ec_public_key s h = absurd (none-ne-some s h)
scheme_of_curve_named (other_oid n) s h = absurd (none-ne-some s h)

scheme_of_key_named :
    (algorithm : Oid) (parameters : Option Oid) (s : SignatureScheme)
    → scheme_of_key algorithm parameters ≡ some s
    → (alg : Text) × (alg_name_for_scheme s ≡ some alg)
unfolding alg_name_for_scheme
scheme_of_key_named oid_sig_ed25519 p s h =
    subst (λ t. (alg : Text) × (alg_name_for_scheme t ≡ some alg)) (some-injective ed25519 s h)
      (ed25519_name, refl)
scheme_of_key_named oid_pkcs1_rsaencryption p s h =
    subst (λ t. (alg : Text) × (alg_name_for_scheme t ≡ some alg))
      (some-injective rsa_pss_sha512 s h) (rsa_pss_sha512_name, refl)
scheme_of_key_named oid_key_type_ec_public_key none s h = absurd (none-ne-some s h)
scheme_of_key_named oid_key_type_ec_public_key (some curve) s h = scheme_of_curve_named curve s h
scheme_of_key_named oid_ec_p256 p s h = absurd (none-ne-some s h)
scheme_of_key_named oid_nist_ec_p384 p s h = absurd (none-ne-some s h)
scheme_of_key_named (other_oid n) p s h = absurd (none-ne-some s h)

pub canonical_scheme_named :
    (c : Crypto) (spki : List ℕ) (key : SubjectPublicKeyInfo) (s : SignatureScheme)
    → c.from_der spki ≡ some key
    → canonical_scheme_for_spki c spki ≡ some s
    → (alg : Text) × (alg_name_for_scheme s ≡ some alg)
unfolding canonical_scheme_for_spki
canonical_scheme_named c spki key s k h =
    scheme_of_key_named key.algorithm key.parameters s (sym (rw (canonical_scheme_for_spki, k)) ∙ h)
