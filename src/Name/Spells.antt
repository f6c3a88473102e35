-- ===== src/Name/Spells.antt =====
-- Names on the wire as a relation, and that the parser returns what the bytes spell.
use Prim.Native.Nat.{bit_and, bit_or}
use ddns.Prelude.{
  ℕ, zero, suc, ◌+◌, ◌*◌, ◌/◌, ◌%◌, ◌^◌, ◌≤◌, ◌<◌, ◌≡◌, refl, arith, Bool, true, false, not, ◌||◌,
  ◌∙◌,
}
use ddns.Prelude.{
  List, [], ◌∷◌, ◌++◌, append_assoc, length, length-append, drop, All, leb, ltb, ◌==◌,
}
use ddns.Prelude.{drop-append_le}
use native.Mathlib.Nat.{le_refl}
use ddns.Bits.{bit_or_high, bit_and_mask, all_below, all_below_sound}
use ddns.Bytes.{ok, ◌>>=◌, read_be_one, read_take-append}
use ddns.Bytes.Standard.{standard}
use ddns.Utf8.{IsUtf8}
use ddns.Name.Defs.{Name, dot, join, contains, be_name_labels, labels_fuel, be_name}
use ddns.Name.Fuel.{measure, push_measure, enough_fuel}

-- A label that DNS can carry: up to 63 bytes of text without a dot.
pub record IsLabel (l : Name) : Type 0 where
  pub filled : 0 < length l
  pub short : length l ≤ 63
  pub dotless : contains l dot ≡ false
  pub text : IsUtf8 l

-- `Spells origin b input labels rest`: the bytes of `input` up to `rest` spell `labels` in the
-- message `origin`, and the first pointer among them leads below `b`, the next below that one.
pub data Spells (origin : List ℕ) : ℕ → List ℕ → List Name → List ℕ → Type 0 where
  root : {b : ℕ} {rest : List ℕ} → Spells origin b (0 ∷ rest) [] rest
  label :
      {b : ℕ} {s rest : List ℕ} {labels : List Name} (l : Name)
      → IsLabel l
      → Spells origin b s labels rest
      → Spells origin b (length l ∷ (l ++ s)) (l ∷ labels) rest
  pointer :
      {b : ℕ} {rest end : List ℕ} {labels : List Name} (o : ℕ)
      → o < b
      → o < length origin
      → o < 2 ^ 14
      → Spells origin o (drop o origin) labels end
      → Spells origin b ((192 + o / 256) ∷ (o % 256) ∷ rest) labels rest

-- A longer message, with the same bytes in front, spells the same.
pub Spells-append :
    {origin : List ℕ} {b : ℕ} {input rest : List ℕ} {labels : List Name} (more : List ℕ)
    → Spells origin b input labels rest
    → Spells (origin ++ more) b (input ++ more) labels (rest ++ more)
Spells-append more root = root
Spells-append {origin} more (label {s = s} l hl d) =
    rw (append_assoc l s more) (label l hl (Spells-append more d))
Spells-append {origin} more (pointer {end = e} o below inside narrow d) =
    pointer {end = e ++ more} o below (omega (arith, length-append {0} origin more)) narrow
      (rw (drop-append_le o origin more (omega arith)) (Spells-append more d))

-- The same for a slice of the message, followed by other bytes than the message is.
pub Spells-extend :
    {origin : List ℕ} {b : ℕ} {input rest : List ℕ} {labels : List Name} (after more : List ℕ)
    → Spells origin b input labels rest
    → Spells (origin ++ more) b (input ++ after) labels (rest ++ after)
Spells-extend after more root = root
Spells-extend {origin} after more (label {s = s} l hl d) =
    rw (append_assoc l s after) (label l hl (Spells-extend after more d))
Spells-extend {origin} after more (pointer {end = e} o below inside narrow d) =
    pointer {end = e ++ more} o below (omega (arith, length-append {0} origin more)) narrow
      (rw (drop-append_le o origin more (omega arith)) (Spells-append more d))

-- A higher bound allows as much.
pub Spells-mono :
    {origin : List ℕ} {b c : ℕ} {input rest : List ℕ} {labels : List Name}
    → b ≤ c
    → Spells origin b input labels rest
    → Spells origin c input labels rest
Spells-mono h root = root
Spells-mono h (label l hl d) = label l hl (Spells-mono h d)
Spells-mono h (pointer o below inside narrow d) = pointer o (omega arith) inside narrow d

plain_table : all_below 64 (λ x. not (bit_and x 0xc0 == 0xc0)) ≡ true
unfolding all_below
plain_table = refl

not-true : (b : Bool) → not b ≡ true → b ≡ false
not-true true h = cc
not-true false h = refl

plain_byte : (x : ℕ) → x ≤ 63 → (bit_and x 0xc0 == 0xc0) ≡ false
plain_byte x h =
    not-true (bit_and x 0xc0 == 0xc0) (all_below_sound 64 _ x plain_table (omega arith))

pointer_table : all_below 64 (λ x. bit_and (192 + x) 0xc0 == 0xc0) ≡ true
unfolding all_below
pointer_table = refl

offset_bytes :
    (len lo : ℕ) → lo < 256 → bit_or (bit_and len 0x3f * 2 ^ 8) lo ≡ bit_and len 0x3f * 2 ^ 8 + lo
offset_bytes len lo h = bit_or_high 8 (bit_and len 0x3f) lo h

module _ (fuel : ℕ) (origin visited : List ℕ) where
  step_root : (s : List ℕ) → be_name_labels standard (suc fuel) (0 ∷ s) origin visited ≡ ok (s, [])
  unfolding be_name_labels
  step_root s = rw read_be_one

  step_label :
      (l : Name) (s : List ℕ)
      → IsLabel l
      → be_name_labels standard (suc fuel) (length l ∷ (l ++ s)) origin visited
        ≡ (be_name_labels standard fuel s origin visited >>= λ p. ok (p.0, l ∷ p.1))
  unfolding be_name_labels
  step_label l s h =
      let some_bytes : (length l == 0) ≡ false = ground arith in
      let fits : ltb 63 (length l) ≡ false = ground arith in
      rw
        (read_be_one, some_bytes, plain_byte (length l) h.short, fits, read_take-append l s, h.text)

  step_pointer :
      (o : ℕ) (s : List ℕ)
      → o < length origin
      → o < 2 ^ 14
      → contains visited o ≡ false
      → be_name_labels standard (suc fuel) ((192 + o / 256) ∷ (o % 256) ∷ s) origin visited
        ≡ (be_name_labels standard fuel (drop o origin) origin (o ∷ visited) >>= λ p. ok (s, p.1))
  unfolding be_name_labels
  step_pointer o s inside narrow new =
      let some_bytes : (192 + o / 256 == 0) ≡ false = ground arith in
      let marked = all_below_sound 64 _ (o / 256) pointer_table (omega arith) in
      let offset : bit_or (bit_and (192 + o / 256) 0x3f * 2 ^ 8) (o % 256) ≡ o = omega (
        arith,
        bit_and_mask 6 (192 + o / 256),
        offset_bytes (192 + o / 256) (o % 256) (omega arith),
      ) in
      let inner : leb (length origin) o ≡ false = ground arith in
      rw (read_be_one, read_be_one, some_bytes, marked, offset, inner, new)

fresh : (o b : ℕ) (visited : List ℕ) → o < b → All (λ v. b ≤ v) visited → contains visited o ≡ false
fresh o b [] h k = refl
fresh o b (v ∷ visited) h (p, k) = ground (arith, fresh o b visited h k)

above : (o b : ℕ) (visited : List ℕ) → o < b → All (λ v. b ≤ v) visited → All (λ v. o ≤ v) visited
above o b [] h k = tt
above o b (v ∷ visited) h (p, k) = (omega arith, above o b visited h k)

-- The parser finds the labels that the bytes spell, whatever pointers above it is following.
labels-Spells :
    {origin : List ℕ} (fuel : ℕ) (visited : List ℕ) {b : ℕ} {input rest : List ℕ}
    {labels : List Name}
    → Spells origin b input labels rest
    → All (λ v. b ≤ v) visited
    → measure input origin visited ≤ fuel
    → be_name_labels standard fuel input origin visited ≡ ok (rest, labels)
labels-Spells zero visited d k h = absurd (omega arith)
labels-Spells {origin} (suc fuel) visited (root {rest = r}) k h = step_root fuel origin visited r
labels-Spells {origin} (suc fuel) visited (label {s = s} l hl d) k h =
    step_label fuel origin visited l s hl
    ∙ rw (labels-Spells fuel visited d k (omega (arith, length-append {0} l s)))
labels-Spells {origin} (suc fuel) visited {b = b} (pointer {rest = r} o below inside narrow d) k h =
    let new = fresh o b visited below k in
    let admitted : leb (length origin) o || contains visited o ≡ false = ground (arith, new) in
    let less = push_measure origin visited ((192 + o / 256) ∷ (o % 256) ∷ r) o fuel admitted h in
    step_pointer fuel origin visited o r inside narrow new
    ∙ rw (labels-Spells fuel (o ∷ visited) d (le_refl o, above o b visited below k) less)

-- `be_name` returns the spelled labels, joined.
pub be_name-Spells :
    {origin : List ℕ} {b : ℕ} {input rest : List ℕ} {l : Name} {labels : List Name}
    → Spells origin b input (l ∷ labels) rest
    → be_name standard input origin ≡ ok (rest, join (l ∷ labels))
unfolding be_name
be_name-Spells {origin} {input = input} d =
    rw (labels-Spells (labels_fuel input origin) [] d tt (enough_fuel input origin))

pub be_name_root :
    {origin : List ℕ} {b : ℕ} {input rest : List ℕ}
    → Spells origin b input [] rest
    → be_name standard input origin ≡ ok (rest, dot ∷ [])
unfolding be_name
be_name_root {origin} {input = input} d =
    rw (labels-Spells (labels_fuel input origin) [] d tt (enough_fuel input origin))
