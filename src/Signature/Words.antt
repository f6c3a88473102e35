-- ===== src/Signature/Words.antt =====
-- The texts and the characters of the signature fields.
use ddns.Prelude.{ℕ, [], ◌∷◌}
use ddns.Signature.Schemes.{Text}

-- sha-256=:
abbrev pub digest_prefix : Text
digest_prefix = 0x73 ∷ 0x68 ∷ 0x61 ∷ 0x2d ∷ 0x32 ∷ 0x35 ∷ 0x36 ∷ 0x3d ∷ 0x3a ∷ []

-- dns=:
abbrev pub signature_prefix : Text
signature_prefix = 0x64 ∷ 0x6e ∷ 0x73 ∷ 0x3d ∷ 0x3a ∷ []

-- dns=("content-digest")
abbrev pub signature_input_prefix : Text
signature_input_prefix =
    0x64 ∷ 0x6e ∷ 0x73 ∷ 0x3d ∷ 0x28 ∷ 0x22 ∷ 0x63 ∷ 0x6f ∷ 0x6e ∷ 0x74 ∷ 0x65 ∷ 0x6e ∷ 0x74 ∷ 0x2d
    ∷ 0x64 ∷ 0x69 ∷ 0x67 ∷ 0x65 ∷ 0x73 ∷ 0x74 ∷ 0x22 ∷ 0x29 ∷ []

-- dns=
abbrev pub label_prefix : Text
label_prefix = 0x64 ∷ 0x6e ∷ 0x73 ∷ 0x3d ∷ []

-- ("content-digest")
abbrev pub covered : Text
covered =
    0x28 ∷ 0x22 ∷ 0x63 ∷ 0x6f ∷ 0x6e ∷ 0x74 ∷ 0x65 ∷ 0x6e ∷ 0x74 ∷ 0x2d ∷ 0x64 ∷ 0x69 ∷ 0x67 ∷ 0x65
    ∷ 0x73 ∷ 0x74 ∷ 0x22 ∷ 0x29 ∷ []

-- created=
abbrev pub created_prefix : Text
created_prefix = 0x63 ∷ 0x72 ∷ 0x65 ∷ 0x61 ∷ 0x74 ∷ 0x65 ∷ 0x64 ∷ 0x3d ∷ []

-- keyid=
abbrev pub keyid_prefix : Text
keyid_prefix = 0x6b ∷ 0x65 ∷ 0x79 ∷ 0x69 ∷ 0x64 ∷ 0x3d ∷ []

-- alg=
abbrev pub alg_prefix : Text
alg_prefix = 0x61 ∷ 0x6c ∷ 0x67 ∷ 0x3d ∷ []

-- sha256:
abbrev pub fingerprint_prefix : Text
fingerprint_prefix = 0x73 ∷ 0x68 ∷ 0x61 ∷ 0x32 ∷ 0x35 ∷ 0x36 ∷ 0x3a ∷ []

-- "content-digest":
abbrev pub base_digest : Text
base_digest =
    0x22 ∷ 0x63 ∷ 0x6f ∷ 0x6e ∷ 0x74 ∷ 0x65 ∷ 0x6e ∷ 0x74 ∷ 0x2d ∷ 0x64 ∷ 0x69 ∷ 0x67 ∷ 0x65 ∷ 0x73
    ∷ 0x74 ∷ 0x22 ∷ 0x3a ∷ 0x20 ∷ []

-- \n"@signature-params":
abbrev pub base_params : Text
base_params =
    0xa ∷ 0x22 ∷ 0x40 ∷ 0x73 ∷ 0x69 ∷ 0x67 ∷ 0x6e ∷ 0x61 ∷ 0x74 ∷ 0x75 ∷ 0x72 ∷ 0x65 ∷ 0x2d ∷ 0x70
    ∷ 0x61 ∷ 0x72 ∷ 0x61 ∷ 0x6d ∷ 0x73 ∷ 0x22 ∷ 0x3a ∷ 0x20 ∷ []

abbrev pub semicolon : ℕ
semicolon = 0x3b

abbrev pub colon : ℕ
colon = 0x3a

abbrev pub quote : ℕ
quote = 0x22
