-- ===== src/Signature/Fields.antt =====
-- The fields that are written: their bytes, and the parsers on them.
use ddns.Prelude.{
  ℕ, ◌<◌, ◌≡◌, refl, arith, Bool, true, ◌&&◌, ltb, ltb→lt, and-eq-true, if◌then◌else◌,
}
use ddns.Prelude.{List, [], ◌∷◌, ◌++◌, All, All-append, All-mono, some}
use ddns.Name.Defs.{name_eq}
use ddns.Name.Table.{name_eq_iff}
use ddns.Utf8.{ascii-IsUtf8}
use ddns.Signature.Schemes.{Text, is_token, literal_token}
use ddns.Signature.Text.{display_u64, hex, hex_token, digits_token, strip_prefix, strip_last-append}
use ddns.Signature.Words.{
  colon, semicolon, quote, keyid_prefix, created_prefix, alg_prefix, signature_input_prefix,
  digest_prefix, signature_prefix, fingerprint_prefix,
}
use ddns.Signature.Defs.{
  Crypto, digest_mismatch, success, failure, verify_content_digest, parse_signature,
  content_digest_value, keyid_for_cert, signature_value, signature_input_value, field_str, quoted,
}

abbrev pub IsAscii : Text → Type 0
IsAscii s = All (λ b. b < 128) s

-- What the libraries document: base64 is ASCII and is decoded again, and a digest is bytes.
pub record IsCrypto (c : Crypto) : Type 0 where
  pub base64_ascii : (bs : List ℕ) → All (λ b. b < 128) (c.base64_encode bs)
  pub base64_decodes : (bs : List ℕ) → c.base64_decode (c.base64_encode bs) ≡ some bs
  pub digest_bytes : (bs : List ℕ) → All (λ b. b < 256) (c.sha256 bs)

pub name_eq_refl : (s : Text) → name_eq s s ≡ true
name_eq_refl s = (name_eq_iff s s).1 refl

pub field_str-IsAscii : (s : Text) → IsAscii s → field_str s ≡ success s
unfolding field_str
field_str-IsAscii s h = rw (ascii-IsUtf8 s h, name_eq_refl s)

pub token-IsAscii : (s : Text) → All (λ b. is_token b ≡ true) s → IsAscii s
token-IsAscii s h = All-mono (λ b. is_token b ≡ true) (λ b. b < 128) (λ b k. ground arith) s h

abbrev pub all_ascii : Text → Bool
all_ascii [] = true
all_ascii (b ∷ s) = ltb b 128 && all_ascii s

-- A constant is ASCII by computation.
pub literal-IsAscii : (s : Text) → all_ascii s ≡ true → IsAscii s
literal-IsAscii [] h = tt
literal-IsAscii (b ∷ s) h =
    let (first, rest) = and-eq-true (ltb b 128) (all_ascii s) h in
    (ltb→lt b 128 first, literal-IsAscii s rest)

pub append-IsAscii : (s t : Text) → IsAscii s → IsAscii t → IsAscii (s ++ t)
append-IsAscii s t h k = All-append (λ b. b < 128) s t h k

pub content_digest_value-IsAscii :
    (c : Crypto) (bs : List ℕ) → IsCrypto c → IsAscii (content_digest_value c bs)
unfolding content_digest_value
content_digest_value-IsAscii c bs laws =
    append-IsAscii digest_prefix (c.base64_encode (c.sha256 bs) ++ (colon ∷ []))
      (literal-IsAscii digest_prefix refl)
      (append-IsAscii (c.base64_encode (c.sha256 bs)) (colon ∷ []) (laws.base64_ascii (c.sha256 bs))
        (literal-IsAscii (colon ∷ []) refl))

pub signature_value-IsAscii :
    (c : Crypto) (bs : List ℕ) → IsCrypto c → IsAscii (signature_value c bs)
unfolding signature_value
signature_value-IsAscii c bs laws =
    append-IsAscii signature_prefix (c.base64_encode bs ++ (colon ∷ []))
      (literal-IsAscii signature_prefix refl)
      (append-IsAscii (c.base64_encode bs) (colon ∷ []) (laws.base64_ascii bs)
        (literal-IsAscii (colon ∷ []) refl))

pub quoted-IsAscii : (s : Text) → All (λ b. is_token b ≡ true) s → IsAscii (s ++ (quote ∷ []))
quoted-IsAscii s h =
    append-IsAscii s (quote ∷ []) (token-IsAscii s h) (literal-IsAscii (quote ∷ []) refl)

pub signature_input_value-IsAscii :
    (created : ℕ) (keyid alg : Text)
    → All (λ b. is_token b ≡ true) keyid
    → All (λ b. is_token b ≡ true) alg
    → IsAscii (signature_input_value created keyid alg)
unfolding signature_input_value
signature_input_value-IsAscii created keyid alg k a =
    let last = alg_prefix ++ quoted alg in
    let middle = keyid_prefix ++ quoted keyid in
    append-IsAscii (signature_input_prefix ++ (semicolon ∷ created_prefix))
      (display_u64 created ++ (semicolon ∷ middle ++ (semicolon ∷ last)))
      (literal-IsAscii (signature_input_prefix ++ (semicolon ∷ created_prefix)) refl)
      (append-IsAscii (display_u64 created) (semicolon ∷ middle ++ (semicolon ∷ last))
        (token-IsAscii (display_u64 created) (digits_token 20 created))
        (append-IsAscii (semicolon ∷ keyid_prefix ++ (quote ∷ []))
          ((keyid ++ (quote ∷ [])) ++ (semicolon ∷ last))
          (literal-IsAscii (semicolon ∷ keyid_prefix ++ (quote ∷ [])) refl)
          (append-IsAscii (keyid ++ (quote ∷ [])) (semicolon ∷ last) (quoted-IsAscii keyid k) (
            append-IsAscii (semicolon ∷ alg_prefix ++ (quote ∷ [])) (alg ++ (quote ∷ []))
              (literal-IsAscii (semicolon ∷ alg_prefix ++ (quote ∷ [])) refl)
              (quoted-IsAscii alg a)))))

pub keyid_token :
    (c : Crypto) (cert : List ℕ) → IsCrypto c → All (λ b. is_token b ≡ true) (keyid_for_cert c cert)
unfolding keyid_for_cert
keyid_token c cert laws =
    All-append (λ b. is_token b ≡ true) fingerprint_prefix (hex (c.sha256 cert))
      (literal_token fingerprint_prefix refl) (hex_token (c.sha256 cert) (laws.digest_bytes cert))

pub digest_checked :
    (c : Crypto) (dns other : List ℕ)
    → IsCrypto c
    → verify_content_digest c (content_digest_value c dns) other
      ≡ (if name_eq (c.sha256 dns) (c.sha256 other) then success tt else failure digest_mismatch)
unfolding verify_content_digest content_digest_value strip_prefix
digest_checked c dns other laws =
    rw
      (strip_last-append colon (c.base64_encode (c.sha256 dns)), laws.base64_decodes (c.sha256 dns))

pub signature_parsed :
    (c : Crypto) (signature : List ℕ)
    → IsCrypto c
    → parse_signature c (signature_value c signature) ≡ success signature
unfolding parse_signature signature_value strip_prefix
signature_parsed c signature laws =
    rw (strip_last-append colon (c.base64_encode signature), laws.base64_decodes signature)
