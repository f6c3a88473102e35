-- ===== src/VarInt/Decode.antt =====
-- `be_varint` on any input, and the limits of the type.
use ddns.Prelude.{
  mul_mono, ltb→lt, Bool-cases, inl, inr, ℕ, suc, zero, ◌+◌, ◌-◌, ◌*◌, ◌/◌, ◌^◌, ◌<◌, ◌≤◌, ◌≢◌, ◌≡◌,
  ◌⊎◌, refl, arith,
}
use ddns.Prelude.{List, [], ◌∷◌, ◌++◌, none, All}
use ddns.Prelude.{
  length, length-append, take, drop, replicate, ltb, leb, length-drop, length-take,
  length-replicate, ap, All-append, All-take, All-replicate,
}
use Prim.Native.Nat.{bit_and}
use native.Mathlib.Nat.{pow-suc, div-le_self}
use ddns.Bits.{bit_and_mask}
use ddns.Bytes.{
  ByteIo, IsByteIo, IResult, ok, err, incomplete, from_be, read_be_one, read_be, from_be_acc,
}
use ddns.Bytes.Standard.{standard, of_standard}
use ddns.VarInt.Defs.{
  VarInt, varint_buf, encoding_size, be_varint, put_varint, of_u64, fits, overflows, varint_max,
}

-- The constructor and the printers agree on the limit: a number that `of_u64` accepts is printed by
-- `put_varint`, and one that it rejects is where `put_varint` and `encoding_size` would panic.
pub of_u64_limit :
    (io : ByteIo) (buf : List ℕ) (v : VarInt)
    → ((of_u64 v.value ≡ fits v) × (put_varint io buf v ≢ none) × (encoding_size v ≢ none))
      ⊎ ((of_u64 v.value ≡ overflows (record { value = v.value }))
          × (put_varint io buf v ≡ none)
          × (encoding_size v ≡ none))
unfolding of_u64 put_varint encoding_size
of_u64_limit io buf v = elim (Bool-cases (leb v.value varint_max)) [
  | inl a ↦ inl (rw a, ground arith, ground arith)
  | inr a ↦ inr (rw a, ground arith, ground arith)
]

-- A number read from bytes fits as many digits.
from_be_acc-lt :
    (bs : List ℕ) (acc : ℕ)
    → All (λ b. b < 256) bs
    → from_be_acc acc bs < (acc + 1) * 256 ^ length bs
unfolding from_be_acc
from_be_acc-lt [] acc h = omega arith
from_be_acc-lt (b ∷ bs) acc (hb, h) = omega (
  arith,
  from_be_acc-lt bs (acc * 256 + b) h,
  mul_mono (acc * 256 + b + 1) ((acc + 1) * 256) (256 ^ length bs) (omega arith),
  ap (λ (t : ℕ). (acc + 1) * t) (pow-suc 256 (length bs)),
)

tag_length : (t : ℕ) → t < 4 → (1 ≤ 2 ^ t) × (2 ^ t ≤ 8)
tag_length zero h = omega arith
tag_length (suc zero) h = omega arith
tag_length (suc (suc zero)) h = omega arith
tag_length (suc (suc (suc zero))) h = omega arith
tag_length (suc (suc (suc (suc t)))) h = absurd (omega arith)

buf-lt :
    (b len : ℕ) (remain : List ℕ)
    → All (λ b. b < 256) remain
    → 1 ≤ len
    → len ≤ 8
    → len ≤ length remain + 1
    → from_be (varint_buf b len remain) < 2 ^ 62
unfolding varint_buf from_be from_be_acc
buf-lt b len remain h lo hi long = omega (
  arith,
  bit_and_mask 6 b,
  from_be_acc-lt tail (0 * 256 + bit_and b 63) (
      All-append _ (take (len - 1) remain) _ (All-take _ (len - 1) remain h)
        (All-replicate _ (8 - len) 0 (omega arith))),
  ap (λ (n : ℕ). (0 * 256 + bit_and b 63 + 1) * 256 ^ n) seven,
)
  where
    tail : List ℕ
    tail = take (len - 1) remain ++ replicate (8 - len) 0

    seven : length tail ≡ 7
    seven = omega (
      arith,
      length-append (take (len - 1) remain) (replicate (8 - len) 0),
      length-take (len - 1) remain,
      length-replicate {0} {A = ℕ} (8 - len) 0,
    )

-- What a read of a varint gives: a number of at most 62 bits from one, two, four or eight bytes, or
-- a request for the bytes that are missing from them.
abbrev Reads : List ℕ → IResult VarInt → Type 0
Reads input r =
    ((v : VarInt) × (remain : List ℕ) × (t : ℕ) × (r ≡ ok (remain, v))
      × (v.value < 2 ^ 62)
      × (t < 4)
      × (length input ≡ 2 ^ t + length remain))
    ⊎ ((n : ℕ) × (r ≡ err (incomplete n)) × (0 < n) × (length input + n ≤ 8))

be_varint_empty : be_varint standard [] ≡ err (incomplete 1)
unfolding be_varint read_be
be_varint_empty = refl

be_varint-standard :
    (input : List ℕ) → All (λ b. b < 256) input → Reads input (be_varint standard input)
unfolding be_varint
be_varint-standard [] h = inr (1, be_varint_empty, omega arith, omega arith)
be_varint-standard (b ∷ s) (hb, h) =
    let len = 2 ^ (b / 2 ^ 6) in
    let (lo, hi) = tag_length (b / 2 ^ 6) (omega arith) in
    rw (read_be_one b s) (elim (Bool-cases (ltb (length s + 1) len)) [
      | inl short ↦
          let missing = ltb→lt (length s + 1) len short in
          rw short (inr (len - (length s + 1), refl, omega arith, omega arith))
      | inr long ↦
          let there : len ≤ length s + 1 = ground arith in
          let small = buf-lt b len s h lo hi there in
          rw long (
            inl (
              record { value = from_be (varint_buf b len s) / 2 ^ (8 * (8 - len)) },
              drop (len - 1) s,
              b / 2 ^ 6,
              refl,
              omega
                  (arith, small, div-le_self (from_be (varint_buf b len s)) (2 ^ (8 * (8 - len)))),
              omega arith,
              omega (arith, length-drop (len - 1) s),
            ))
    ])

-- On every input of bytes, through every byte interface that keeps its laws, `be_varint` either
-- returns a number below 2 ^ 62 and takes one, two, four or eight bytes for it, or asks for a
-- positive number of bytes, and then the input with those has at most eight. It raises no other
-- error.
pub be_varint_reads :
    (io : ByteIo)
    → IsByteIo io
    → (input : List ℕ) → All (λ b. b < 256) input
    → ((v : VarInt) × (remain : List ℕ) × (t : ℕ) × (be_varint io input ≡ ok (remain, v))
        × (v.value < 2 ^ 62)
        × (t < 4)
        × (length input ≡ 2 ^ t + length remain))
      ⊎ ((n : ℕ) × (be_varint io input ≡ err (incomplete n)) × (0 < n) × (length input + n ≤ 8))
be_varint_reads io laws input h =
    of_standard (λ io. Reads input (be_varint io input)) laws (be_varint-standard input h)
