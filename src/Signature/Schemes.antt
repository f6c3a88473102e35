-- ===== src/Signature/Schemes.antt =====
-- The tables of src/core/parser/sigin.rs: the signature schemes and their names. A scheme of `rustls` is
-- one of those that the code names, or another one by its number.
use ddns.Prelude.{
  and-eq-true, ℕ, ◌≡◌, refl, subst, Bool, true, ◌&&◌, if◌then◌else◌, ltb, not, ◌==◌, [], ◌∷◌,
  Option, none, some, All,
}
use mathlib.Core.Option.{some-injective, none-ne-some}
use ddns.Name.{Name}
use ddns.Name.Defs.{name_eq}

abbrev pub Text : Type 0
Text = Name

pub data SignatureScheme : Type 0 where
  ed25519 ecdsa_nistp256_sha256 ecdsa_nistp384_sha384 rsa_pss_sha256 rsa_pss_sha384 rsa_pss_sha512
        rsa_pkcs1_sha256 rsa_pkcs1_sha384 rsa_pkcs1_sha512 :
      SignatureScheme
  unknown : ℕ → SignatureScheme

-- ed25519
abbrev pub ed25519_name : Text
ed25519_name = 0x65 ∷ 0x64 ∷ 0x32 ∷ 0x35 ∷ 0x35 ∷ 0x31 ∷ 0x39 ∷ []

-- ecdsa-p256-sha256
abbrev pub ecdsa_nistp256_sha256_name : Text
ecdsa_nistp256_sha256_name =
    0x65 ∷ 0x63 ∷ 0x64 ∷ 0x73 ∷ 0x61 ∷ 0x2d ∷ 0x70 ∷ 0x32 ∷ 0x35 ∷ 0x36 ∷ 0x2d ∷ 0x73 ∷ 0x68 ∷ 0x61
    ∷ 0x32 ∷ 0x35 ∷ 0x36 ∷ []

-- ecdsa-p384-sha384
abbrev pub ecdsa_nistp384_sha384_name : Text
ecdsa_nistp384_sha384_name =
    0x65 ∷ 0x63 ∷ 0x64 ∷ 0x73 ∷ 0x61 ∷ 0x2d ∷ 0x70 ∷ 0x33 ∷ 0x38 ∷ 0x34 ∷ 0x2d ∷ 0x73 ∷ 0x68 ∷ 0x61
    ∷ 0x33 ∷ 0x38 ∷ 0x34 ∷ []

-- rsa-pss-sha256
abbrev pub rsa_pss_sha256_name : Text
rsa_pss_sha256_name =
    0x72 ∷ 0x73 ∷ 0x61 ∷ 0x2d ∷ 0x70 ∷ 0x73 ∷ 0x73 ∷ 0x2d ∷ 0x73 ∷ 0x68 ∷ 0x61 ∷ 0x32 ∷ 0x35 ∷ 0x36
    ∷ []

-- rsa-pss-sha384
abbrev pub rsa_pss_sha384_name : Text
rsa_pss_sha384_name =
    0x72 ∷ 0x73 ∷ 0x61 ∷ 0x2d ∷ 0x70 ∷ 0x73 ∷ 0x73 ∷ 0x2d ∷ 0x73 ∷ 0x68 ∷ 0x61 ∷ 0x33 ∷ 0x38 ∷ 0x34
    ∷ []

-- rsa-pss-sha512
abbrev pub rsa_pss_sha512_name : Text
rsa_pss_sha512_name =
    0x72 ∷ 0x73 ∷ 0x61 ∷ 0x2d ∷ 0x70 ∷ 0x73 ∷ 0x73 ∷ 0x2d ∷ 0x73 ∷ 0x68 ∷ 0x61 ∷ 0x35 ∷ 0x31 ∷ 0x32
    ∷ []

-- rsa-v1_5-sha256
abbrev pub rsa_pkcs1_sha256_name : Text
rsa_pkcs1_sha256_name =
    0x72 ∷ 0x73 ∷ 0x61 ∷ 0x2d ∷ 0x76 ∷ 0x31 ∷ 0x5f ∷ 0x35 ∷ 0x2d ∷ 0x73 ∷ 0x68 ∷ 0x61 ∷ 0x32 ∷ 0x35
    ∷ 0x36 ∷ []

-- rsa-v1_5-sha384
abbrev pub rsa_pkcs1_sha384_name : Text
rsa_pkcs1_sha384_name =
    0x72 ∷ 0x73 ∷ 0x61 ∷ 0x2d ∷ 0x76 ∷ 0x31 ∷ 0x5f ∷ 0x35 ∷ 0x2d ∷ 0x73 ∷ 0x68 ∷ 0x61 ∷ 0x33 ∷ 0x38
    ∷ 0x34 ∷ []

-- rsa-v1_5-sha512
abbrev pub rsa_pkcs1_sha512_name : Text
rsa_pkcs1_sha512_name =
    0x72 ∷ 0x73 ∷ 0x61 ∷ 0x2d ∷ 0x76 ∷ 0x31 ∷ 0x5f ∷ 0x35 ∷ 0x2d ∷ 0x73 ∷ 0x68 ∷ 0x61 ∷ 0x35 ∷ 0x31
    ∷ 0x32 ∷ []

unfoldable pub alg_name_for_scheme : SignatureScheme → Option Text
alg_name_for_scheme ed25519 = some ed25519_name
alg_name_for_scheme ecdsa_nistp256_sha256 = some ecdsa_nistp256_sha256_name
alg_name_for_scheme ecdsa_nistp384_sha384 = some ecdsa_nistp384_sha384_name
alg_name_for_scheme rsa_pss_sha256 = some rsa_pss_sha256_name
alg_name_for_scheme rsa_pss_sha384 = some rsa_pss_sha384_name
alg_name_for_scheme rsa_pss_sha512 = some rsa_pss_sha512_name
alg_name_for_scheme rsa_pkcs1_sha256 = some rsa_pkcs1_sha256_name
alg_name_for_scheme rsa_pkcs1_sha384 = some rsa_pkcs1_sha384_name
alg_name_for_scheme rsa_pkcs1_sha512 = some rsa_pkcs1_sha512_name
alg_name_for_scheme (unknown code) = none

unfoldable pub scheme_for_alg_name : Text → Option SignatureScheme
scheme_for_alg_name alg =
    if name_eq alg ed25519_name
    then some ed25519
    else if name_eq alg ecdsa_nistp256_sha256_name
    then some ecdsa_nistp256_sha256
    else if name_eq alg ecdsa_nistp384_sha384_name
    then some ecdsa_nistp384_sha384
    else if name_eq alg rsa_pss_sha256_name
    then some rsa_pss_sha256
    else if name_eq alg rsa_pss_sha384_name
    then some rsa_pss_sha384
    else if name_eq alg rsa_pss_sha512_name
    then some rsa_pss_sha512
    else if name_eq alg rsa_pkcs1_sha256_name
    then some rsa_pkcs1_sha256
    else if name_eq alg rsa_pkcs1_sha384_name
    then some rsa_pkcs1_sha384
    else if name_eq alg rsa_pkcs1_sha512_name
    then some rsa_pkcs1_sha512
    else none

-- What is between the quotes of the parameter: a byte of ASCII, and neither a quote nor a semicolon.
abbrev pub is_token : ℕ → Bool
is_token b = ltb b 128 && (not (b == 0x3b) && not (b == 0x22))

abbrev all_token : Text → Bool
all_token [] = true
all_token (b ∷ s) = is_token b && all_token s

pub literal_token : (s : Text) → all_token s ≡ true → All (λ b. is_token b ≡ true) s
literal_token [] h = tt
literal_token (b ∷ s) h =
    let (first, rest) = and-eq-true (is_token b) (all_token s) h in (first, literal_token s rest)

-- The name by which a scheme is found again, and that can be quoted.
abbrev IsNameOf : SignatureScheme → Text → Type 0
IsNameOf s alg = (scheme_for_alg_name alg ≡ some s) × All (λ b. is_token b ≡ true) alg

-- The name that is written for a scheme is the one by which it is found again, and it can be quoted.
pub scheme_for_alg_name-alg_name_for_scheme :
    (s : SignatureScheme) (alg : Text)
    → alg_name_for_scheme s ≡ some alg
    → (scheme_for_alg_name alg ≡ some s) × All (λ b. is_token b ≡ true) alg
unfolding alg_name_for_scheme scheme_for_alg_name name_eq
scheme_for_alg_name-alg_name_for_scheme ed25519 alg h =
    subst (IsNameOf ed25519) (some-injective ed25519_name alg h)
      (refl, literal_token ed25519_name refl)
scheme_for_alg_name-alg_name_for_scheme ecdsa_nistp256_sha256 alg h =
    subst (IsNameOf ecdsa_nistp256_sha256) (some-injective ecdsa_nistp256_sha256_name alg h)
      (refl, literal_token ecdsa_nistp256_sha256_name refl)
scheme_for_alg_name-alg_name_for_scheme ecdsa_nistp384_sha384 alg h =
    subst (IsNameOf ecdsa_nistp384_sha384) (some-injective ecdsa_nistp384_sha384_name alg h)
      (refl, literal_token ecdsa_nistp384_sha384_name refl)
scheme_for_alg_name-alg_name_for_scheme rsa_pss_sha256 alg h =
    subst (IsNameOf rsa_pss_sha256) (some-injective rsa_pss_sha256_name alg h)
      (refl, literal_token rsa_pss_sha256_name refl)
scheme_for_alg_name-alg_name_for_scheme rsa_pss_sha384 alg h =
    subst (IsNameOf rsa_pss_sha384) (some-injective rsa_pss_sha384_name alg h)
      (refl, literal_token rsa_pss_sha384_name refl)
scheme_for_alg_name-alg_name_for_scheme rsa_pss_sha512 alg h =
    subst (IsNameOf rsa_pss_sha512) (some-injective rsa_pss_sha512_name alg h)
      (refl, literal_token rsa_pss_sha512_name refl)
scheme_for_alg_name-alg_name_for_scheme rsa_pkcs1_sha256 alg h =
    subst (IsNameOf rsa_pkcs1_sha256) (some-injective rsa_pkcs1_sha256_name alg h)
      (refl, literal_token rsa_pkcs1_sha256_name refl)
scheme_for_alg_name-alg_name_for_scheme rsa_pkcs1_sha384 alg h =
    subst (IsNameOf rsa_pkcs1_sha384) (some-injective rsa_pkcs1_sha384_name alg h)
      (refl, literal_token rsa_pkcs1_sha384_name refl)
scheme_for_alg_name-alg_name_for_scheme rsa_pkcs1_sha512 alg h =
    subst (IsNameOf rsa_pkcs1_sha512) (some-injective rsa_pkcs1_sha512_name alg h)
      (refl, literal_token rsa_pkcs1_sha512_name refl)
scheme_for_alg_name-alg_name_for_scheme (unknown code) alg h = absurd (none-ne-some alg h)
