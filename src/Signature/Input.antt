-- ===== src/Signature/Input.antt =====
-- The writer and the parser of the signature input.
use ddns.Prelude.{ℕ, ◌<◌, ◌^◌, ◌≡◌, refl, ap, ◌∙◌, arith, true, false, not, contains, nat_eq}
use ddns.Prelude.{[], ◌∷◌, ◌++◌, All, retain, none, some}
use ddns.Signature.Schemes.{Text, is_token}
use ddns.Signature.Text.{
  display_u64, parse_u64-display_u64, digits_token, strip_prefix, strip_last-append, split,
  split_one, split-append,
}
use ddns.Signature.Words.{quote, semicolon, created_prefix, keyid_prefix, alg_prefix, covered}
use ddns.Signature.Defs.{
  success, ◌>>=◌, Params, parse_param, parse_params, parsed, parse_signature_input,
  signature_input_value, unquote, quoted, is_nil,
}

pub no_semicolon : (s : Text) → All (λ b. is_token b ≡ true) s → contains nat_eq s semicolon ≡ false
no_semicolon [] h = refl
no_semicolon (b ∷ s) (h, hs) = ground (arith, no_semicolon s hs)

no_semicolon_quoted :
    (s : Text)
    → All (λ b. is_token b ≡ true) s
    → contains nat_eq (s ++ (quote ∷ [])) semicolon ≡ false
no_semicolon_quoted [] h = refl
no_semicolon_quoted (b ∷ s) (h, hs) = ground (arith, no_semicolon_quoted s hs)

unquote-quoted : (s : Text) → unquote (quoted s) ≡ some s
unfolding unquote strip_prefix
unquote-quoted s = strip_last-append quote s

-- The parameters as they stand between the semicolons.
abbrev pub params_of : ℕ → Text → Text → Text
params_of created keyid alg =
    semicolon ∷ (created_prefix ++ display_u64 created)
    ++ (semicolon ∷ (keyid_prefix ++ quoted keyid) ++ (semicolon ∷ (alg_prefix ++ quoted alg)))

split_params :
    (created : ℕ) (keyid alg : Text)
    → All (λ b. is_token b ≡ true) keyid
    → All (λ b. is_token b ≡ true) alg
    → split semicolon (params_of created keyid alg)
      ≡ []
        ∷ (created_prefix ++ display_u64 created)
        ∷ (keyid_prefix ++ quoted keyid)
        ∷ (alg_prefix ++ quoted alg)
        ∷ []
split_params created keyid alg k a =
    let one = created_prefix ++ display_u64 created in
    let two = keyid_prefix ++ quoted keyid in
    let three = alg_prefix ++ quoted alg in
    split-append semicolon [] (one ++ (semicolon ∷ two ++ (semicolon ∷ three))) refl
    ∙ ap (λ r. [] ∷ r)
        (split-append semicolon one (two ++ (semicolon ∷ three))
            (no_semicolon (display_u64 created) (digits_token 20 created))
          ∙ ap (λ r. one ∷ r)
              (split-append semicolon two three (no_semicolon_quoted keyid k)
                ∙ ap (λ r. two ∷ r) (split_one semicolon three (no_semicolon_quoted alg a))))

parse_param-created :
    (p : Params) (created : ℕ)
    → created < 2 ^ 64
    → parse_param p (created_prefix ++ display_u64 created)
      ≡ success (record p { created = some created })
unfolding parse_param strip_prefix
parse_param-created p created h =
    ap (λ n. success (record p { created = n })) (parse_u64-display_u64 created h)

parse_param-keyid :
    (p : Params) (keyid : Text)
    → parse_param p (keyid_prefix ++ quoted keyid) ≡ success (record p { keyid = some keyid })
unfolding parse_param strip_prefix
parse_param-keyid p keyid = rw (unquote-quoted keyid)

parse_param-alg :
    (p : Params) (alg : Text)
    → parse_param p (alg_prefix ++ quoted alg) ≡ success (record p { alg = some alg })
unfolding parse_param strip_prefix
parse_param-alg p alg = rw (unquote-quoted alg)

abbrev none_yet : Params
none_yet = record { created = none; keyid = none; alg = none }

parse_params_of :
    (created : ℕ) (keyid alg : Text)
    → created < 2 ^ 64
    → parse_params none_yet (
        (created_prefix ++ display_u64 created)
        ∷ (keyid_prefix ++ quoted keyid)
        ∷ (alg_prefix ++ quoted alg)
        ∷ [])
      ≡ success (record { created = some created; keyid = some keyid; alg = some alg })
unfolding parse_params
parse_params_of created keyid alg h = rw (
  parse_param-created none_yet created h,
  parse_param-keyid (record none_yet { created = some created }) keyid,
  parse_param-alg (record none_yet { created = some created; keyid = some keyid }) alg,
)

-- What is written is read: the key id, the algorithm, and all that follows the label.
pub parse_signature_input-signature_input_value :
    (created : ℕ) (keyid alg : Text)
    → created < 2 ^ 64
    → All (λ b. is_token b ≡ true) keyid
    → All (λ b. is_token b ≡ true) alg
    → parse_signature_input (signature_input_value created keyid alg)
      ≡ success (record {
        signature_params = covered ++ params_of created keyid alg;
        alg = alg;
        keyid = keyid;
      })
unfolding parse_signature_input signature_input_value strip_prefix parsed
parse_signature_input-signature_input_value created keyid alg h k a =
    let split_up = split_params created keyid alg k a in
    let all = covered ++ params_of created keyid alg in
    ap (λ pieces. parse_params none_yet (retain (λ part. not (is_nil part)) pieces) >>= parsed all)
      split_up
    ∙ ap (λ r. r >>= parsed all) (parse_params_of created keyid alg h)
