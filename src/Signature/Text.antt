-- ===== src/Signature/Text.antt =====
-- The functions of the standard library on texts that the signature fields go through: decimal numbers,
-- hexadecimal bytes, prefixes, suffixes and `split`. A text is the list of its bytes.
use ddns.Prelude.{
  ℕ, zero, suc, ◌+◌, ◌-◌, ◌*◌, ◌/◌, ◌%◌, ◌^◌, ◌<◌, ◌≡◌, refl, ap, ◌∙◌, arith, Bool, true, false,
  ◌&&◌, Bool-cases, inl, inr, or-eq-false,
}
use ddns.Prelude.{
  List, [], ◌∷◌, ◌++◌, All, All-append, Option, none, some, if◌then◌else◌, ltb, leb, ◌==◌, contains,
  nat_eq, beq_refl,
}
use ddns.Prelude.{length, length-append}
use ddns.Signature.Schemes.{Text, is_token}

-- `{n}` of a `u64`. The first argument bounds the digits.
unfoldable pub digits : ℕ → ℕ → Text
digits zero n = []
digits (suc fuel) n =
    let higher = digits fuel (n / 10) in
    if ltb n 10 then (48 + n) ∷ [] else higher ++ ((48 + n % 10) ∷ [])

abbrev pub display_u64 : ℕ → Text
display_u64 n = digits 20 n

abbrev is_digit : ℕ → Bool
is_digit c = leb 48 c && leb c 57

-- A digit more, with the check for overflow.
abbrev push_digit : Option ℕ → ℕ → Option ℕ
push_digit none c = none
push_digit (some n) c =
    if is_digit c && ltb (n * 10 + (c - 48)) (2 ^ 64) then some (n * 10 + (c - 48)) else none

unfoldable pub parse_from : Option ℕ → Text → Option ℕ
parse_from n [] = n
parse_from n (c ∷ cs) = parse_from (push_digit n c) cs

-- `parse::<u64>()`: digits, after a plus sign or not.
unfoldable pub parse_u64 : Text → Option ℕ
parse_u64 [] = none
parse_u64 (c ∷ []) = parse_from (some 0) (c ∷ [])
parse_u64 (c ∷ d ∷ cs) =
    if c == 0x2b then parse_from (some 0) (d ∷ cs) else parse_from (some 0) (c ∷ d ∷ cs)

-- `{b:02x}` of each byte.
abbrev hex_digit : ℕ → ℕ
hex_digit d = if ltb d 10 then 48 + d else 87 + d

unfoldable pub hex : List ℕ → Text
hex [] = []
hex (b ∷ bs) = hex_digit (b / 16) ∷ hex_digit (b % 16) ∷ hex bs

unfoldable pub strip_prefix : Text → Text → Option Text
strip_prefix [] s = some s
strip_prefix (p ∷ ps) [] = none
strip_prefix (p ∷ ps) (c ∷ cs) = let rest = strip_prefix ps cs in if p == c then rest else none

-- `strip_suffix` of one character.
unfoldable pub strip_last : ℕ → Text → Option Text
strip_last c [] = none
strip_last c (d ∷ []) = if d == c then some [] else none
strip_last c (d ∷ e ∷ ds) = elim (strip_last c (e ∷ ds)) [ some s ↦ some (d ∷ s) | none ↦ none ]

abbrev onto_first : ℕ → List Text → List Text
onto_first c [] = (c ∷ []) ∷ []
onto_first c (p ∷ ps) = (c ∷ p) ∷ ps

unfoldable pub split : ℕ → Text → List Text
split sep [] = [] ∷ []
split sep (c ∷ cs) = let rest = split sep cs in if c == sep then [] ∷ rest else onto_first c rest

-- As many digits as the fuel allows.
abbrev pow10 : ℕ → ℕ
pow10 zero = 1
pow10 (suc n) = 10 * pow10 n

parse_from-append :
    (n : Option ℕ) (cs ds : Text) → parse_from n (cs ++ ds) ≡ parse_from (parse_from n cs) ds
unfolding parse_from
parse_from-append n [] ds = refl
parse_from-append n (c ∷ cs) ds = parse_from-append (push_digit n c) cs ds

push_digit_lem :
    (m d : ℕ) → d < 10 → m * 10 + d < 2 ^ 64 → push_digit (some m) (48 + d) ≡ some (m * 10 + d)
push_digit_lem m d h k = ground arith

parse_from-digits :
    (fuel n : ℕ)
    → n < pow10 fuel
    → 0 < fuel
    → n < 2 ^ 64
    → parse_from (some 0) (digits fuel n) ≡ some n
unfolding parse_from digits
parse_from-digits zero n h k l = absurd (omega arith)
parse_from-digits (suc zero) n h k l =
    let small : ltb n 10 ≡ true = ground arith in
    rw small (push_digit_lem 0 n (omega arith) (omega arith) ∙ ap some (omega arith))
parse_from-digits (suc (suc fuel)) n h k l = elim (Bool-cases (ltb n 10)) [
  | inl small ↦ rw small (push_digit_lem 0 n (ground arith) (omega arith) ∙ ap some (omega arith))
  | inr large ↦
      let higher =
        parse_from-digits (suc fuel) (n / 10) (omega arith) (omega arith) (omega arith) in
      rw
        (
          digits,
          large,
          parse_from-append (some 0) (digits (suc fuel) (n / 10)) ((48 + n % 10) ∷ []),
          higher,
        )
        (push_digit_lem (n / 10) (n % 10) (omega arith) (omega arith) ∙ ap some (omega arith))
]

pub strip_prefix-append : (p s : Text) → strip_prefix p (p ++ s) ≡ some s
unfolding strip_prefix
strip_prefix-append [] s = refl
strip_prefix-append (c ∷ p) s = rw (beq_refl nat_eq c) (strip_prefix-append p s)

pub strip_last-append : (c : ℕ) (s : Text) → strip_last c (s ++ (c ∷ [])) ≡ some s
unfolding strip_last
strip_last-append c [] = rw (beq_refl nat_eq c)
strip_last-append c (d ∷ []) = rw (strip_last, beq_refl nat_eq c)
strip_last-append c (d ∷ e ∷ s) = rw (strip_last-append c (e ∷ s))

pub split_one : (sep : ℕ) (p : Text) → contains nat_eq p sep ≡ false → split sep p ≡ p ∷ []
unfolding split
split_one sep [] h = refl
split_one sep (c ∷ p) h =
    let (other, absent) = or-eq-false (c == sep) (contains nat_eq p sep) h in
    rw (other, split_one sep p absent)

pub split-append :
    (sep : ℕ) (p s : Text)
    → contains nat_eq p sep ≡ false
    → split sep (p ++ (sep ∷ s)) ≡ p ∷ split sep s
unfolding split
split-append sep [] s h = rw (beq_refl nat_eq sep)
split-append sep (c ∷ p) s h =
    let (other, absent) = or-eq-false (c == sep) (contains nat_eq p sep) h in
    rw (other, split-append sep p s absent)

pub digits_token : (fuel n : ℕ) → All (λ b. is_token b ≡ true) (digits fuel n)
unfolding digits
digits_token zero n = tt
digits_token (suc fuel) n = elim (Bool-cases (ltb n 10)) [
  | inl small ↦ rw small (ground arith, tt)
  | inr large ↦ rw large (
      All-append (λ b. is_token b ≡ true) (digits fuel (n / 10)) ((48 + n % 10) ∷ [])
        (digits_token fuel (n / 10)) (ground arith, tt))
]

pub hex_token : (bs : List ℕ) → All (λ b. b < 256) bs → All (λ b. is_token b ≡ true) (hex bs)
unfolding hex
hex_token [] h = tt
hex_token (b ∷ bs) (h, hs) = (ground arith, (ground arith, hex_token bs hs))

digits_digit : (fuel n : ℕ) → All (λ b. is_digit b ≡ true) (digits fuel n)
unfolding digits
digits_digit zero n = tt
digits_digit (suc fuel) n = elim (Bool-cases (ltb n 10)) [
  | inl small ↦ rw small (ground arith, tt)
  | inr large ↦ rw large (
      All-append (λ b. is_digit b ≡ true) (digits fuel (n / 10)) ((48 + n % 10) ∷ [])
        (digits_digit fuel (n / 10)) (ground arith, tt))
]

some_digit : (fuel n : ℕ) → 0 < length (digits (suc fuel) n)
unfolding digits
some_digit fuel n = elim (Bool-cases (ltb n 10)) [
  | inl small ↦ rw (digits, small) (omega arith)
  | inr large ↦
      rw (digits, large) (omega (arith, length-append (digits fuel (n / 10)) ((48 + n % 10) ∷ [])))
]

parse_u64-parse_from :
    (s : Text) → All (λ b. is_digit b ≡ true) s → 0 < length s → parse_u64 s ≡ parse_from (some 0) s
unfolding parse_u64
parse_u64-parse_from [] h k = absurd (omega arith)
parse_u64-parse_from (c ∷ []) h k = refl
parse_u64-parse_from (c ∷ d ∷ cs) (h, hs) k =
    let no_plus : (c == 0x2b) ≡ false = ground arith in rw no_plus

-- A number of 64 bits is read back from its digits.
pub parse_u64-display_u64 : (n : ℕ) → n < 2 ^ 64 → parse_u64 (display_u64 n) ≡ some n
parse_u64-display_u64 n h =
    parse_u64-parse_from (digits 20 n) (digits_digit 20 n) (some_digit 19 n)
    ∙ parse_from-digits 20 n (omega arith) (omega arith) h
