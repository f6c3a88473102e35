-- ===== src/Utf8.antt =====
-- `String::from_utf8_lossy` of the standard library, by which `core/parser/name.rs` turns the bytes
-- of a label into text. A `String` is the list of its UTF-8 bytes.
use ddns.Prelude.{ℕ, zero, suc, ◌<◌, ◌≡◌, refl, ap, Bool, true, false, ◌&&◌}
use ddns.Prelude.{List, [], ◌∷◌, ◌++◌, All, take, ltb, lt→ltb, leb, ◌==◌, if◌then◌else◌}

abbrev within : ℕ → ℕ → ℕ → Bool
within lo hi b = leb lo b && leb b hi

-- A byte past the end reads as 0, which continues nothing.
abbrev at : List ℕ → ℕ → ℕ
at [] i = 0
at (b ∷ bs) zero = b
at (b ∷ bs) (suc i) = at bs i

abbrev continues : ℕ → Bool
continues b = within 0x80 0xbf b

-- The bytes that a sequence takes behind its first byte, and whether it is valid. An invalid one
-- ends before the byte that does not continue it.
abbrev tail_bytes : ℕ → List ℕ → ℕ × Bool
tail_bytes n bs =
    if continues (at bs 0)
    then (if n == 1
        then (1, true)
        else if continues (at bs 1)
        then (if n == 2 then (2, true) else if continues (at bs 2) then (3, true) else (2, false))
        else (1, false))
    else (0, false)

-- The second byte of a long form is limited by the first: no overlong form, no surrogate, and
-- nothing above the last code point.
abbrev second_fits : ℕ → ℕ → Bool
second_fits b c =
    if b == 0xe0
    then within 0xa0 0xbf c
    else if b == 0xed
    then within 0x80 0x9f c
    else if b == 0xf0
    then within 0x90 0xbf c
    else if b == 0xf4
    then within 0x80 0x8f c
    else continues c

unfoldable pub scan : ℕ → List ℕ → ℕ × Bool
scan b bs =
    if ltb b 0x80
    then (0, true)
    else if within 0xc2 0xdf b
    then tail_bytes 1 bs
    else if within 0xe0 0xef b
    then (if second_fits b (at bs 0) then tail_bytes 2 bs else (0, false))
    else if within 0xf0 0xf4 b
    then (if second_fits b (at bs 0) then tail_bytes 3 bs else (0, false))
    else (0, false)

-- U+FFFD
abbrev replacement : List ℕ
replacement = 0xef ∷ 0xbf ∷ 0xbd ∷ []

-- The first argument counts the bytes that belong to a sequence already copied or replaced.
lossy_from : ℕ → List ℕ → List ℕ
lossy_from skip [] = []
lossy_from (suc skip) (b ∷ bs) = lossy_from skip bs
lossy_from zero (b ∷ bs) =
    let (n, valid) = scan b bs in (if valid then b ∷ take n bs else replacement) ++ lossy_from n bs

unfoldable pub from_utf8_lossy : List ℕ → List ℕ
unfolding lossy_from
from_utf8_lossy bs = lossy_from 0 bs

-- Text is what the conversion leaves as it is.
abbrev pub IsUtf8 : List ℕ → Type 0
IsUtf8 bs = from_utf8_lossy bs ≡ bs

scan_ascii : (b : ℕ) (bs : List ℕ) → b < 128 → scan b bs ≡ (0, true)
unfolding scan
scan_ascii b bs h = rw (lt→ltb b 0x80 h)

pub ascii-IsUtf8 : (bs : List ℕ) → All (λ b. b < 128) bs → IsUtf8 bs
unfolding from_utf8_lossy
ascii-IsUtf8 [] h = refl
ascii-IsUtf8 (b ∷ bs) (hb, h) = rw (scan_ascii b bs hb) (ap (λ t. b ∷ t) (ascii-IsUtf8 bs h))

euro : from_utf8_lossy (0xe2 ∷ 0x82 ∷ 0xac ∷ 0x41 ∷ []) ≡ 0xe2 ∷ 0x82 ∷ 0xac ∷ 0x41 ∷ []
unfolding from_utf8_lossy scan
euro = refl

broken : from_utf8_lossy (0xe2 ∷ 0x82 ∷ 0x41 ∷ 0xff ∷ []) ≡ replacement ++ 0x41 ∷ replacement
unfolding from_utf8_lossy scan
broken = refl
