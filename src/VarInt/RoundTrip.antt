-- ===== src/VarInt/RoundTrip.antt =====
-- What `put_varint` writes, and that `be_varint` reads it back.
use Prim.Native.Nat.{bit_and}
use ddns.Prelude.{
  Bool-cases, inl, inr, false, ℕ, suc, ◌+◌, ◌-◌, ◌*◌, ◌/◌, ◌%◌, ◌^◌, ◌<◌, ◌≡◌, refl, ◌∙◌, arith,
}
use ddns.Prelude.{List, ◌∷◌, ◌++◌, some}
use ddns.Prelude.{length, length-append, replicate, Bool-cases, ltb, if◌then◌else◌}
use ddns.Prelude.{take_exact, drop_exact}
use ddns.Bits.{bit_or_high, bit_and_mask}
use ddns.Bytes.{ByteIo, IsByteIo, ok, be_bytes, from_be, read_be_one}
use ddns.Bytes.{from_be_acc, from_be_acc-append, from_be_acc-be_bytes}
use ddns.Bytes.{from_be_acc-zeros, be_bytes_high, length-be_bytes}
use ddns.Bytes.Standard.{standard, of_standard}
use ddns.VarInt.Defs.{VarInt, varint_buf, encoding_size, be_varint, put_varint}

-- An encoding whose first byte holds the tag `t` and whose length is `2 ^ t`: the number in
-- `8 * 2 ^ t - 2` bits below the tag.
abbrev pub tagged : ℕ → ℕ → List ℕ
tagged t x = be_bytes (2 ^ t) (t * 2 ^ (8 * 2 ^ t - 2) + x)

-- The shortest of the four forms.
unfoldable pub encoding : ℕ → List ℕ
encoding x =
    if ltb x (2 ^ 6)
    then tagged 0 x
    else if ltb x (2 ^ 14)
    then tagged 1 x
    else if ltb x (2 ^ 30)
    then tagged 2 x
    else tagged 3 x

pub put_varint-standard :
    (buf : List ℕ) (v : VarInt)
    → v.value < 2 ^ 62
    → put_varint standard buf v ≡ some (buf ++ encoding v.value)
unfolding put_varint encoding
put_varint-standard buf v h =
    ground (arith, bit_or_high 14 1 v.value, bit_or_high 30 2 v.value, bit_or_high 62 3 v.value)

-- Digits, the lower bytes and the padding of the buffer.
padded_value :
    (n q r j acc : ℕ)
    → acc ≡ q
    → r < 256 ^ n
    → from_be_acc acc (be_bytes n r ++ replicate j 0) ≡ (q * 256 ^ n + r) * 256 ^ j
padded_value n q r j acc e hr =
    from_be_acc-append acc (be_bytes n r) (replicate j 0)
    ∙ rw (from_be_acc-be_bytes n acc r hr, e) (from_be_acc-zeros j (q * 256 ^ n + r))

-- The value that `be_varint` computes from a first byte with the tag's bits on top of `q`.
buf_value :
    (t n q r : ℕ) (rest : List ℕ)
    → q < 64
    → r < 256 ^ n
    → from_be (varint_buf (t * 64 + q) (suc n) (be_bytes n r ++ rest))
      ≡ (q * 256 ^ n + r) * 256 ^ (8 - suc n)
unfolding varint_buf from_be from_be_acc
buf_value t n q r rest hq hr =
    let one : suc n - 1 ≡ n = omega arith in
    let low : bit_and (t * 64 + q) 63 ≡ q = omega (arith, bit_and_mask 6 (t * 64 + q)) in
    rw (one, low, take_exact n (be_bytes n r) rest (length-be_bytes n r))
      (padded_value n q r (8 - suc n) (0 * 256 + q) (omega arith) hr)

-- `be_varint` on a tagged encoding of `suc n` bytes, split into its first byte and the others.
be_varint_split :
    (t n q r : ℕ) (rest : List ℕ)
    → 2 ^ t ≡ suc n
    → q < 64
    → r < 256 ^ n
    → be_varint standard ((t * 64 + q) ∷ (be_bytes n r ++ rest))
      ≡ ok (rest, record { value = (q * 256 ^ n + r) * 256 ^ (8 - suc n) / 2 ^ (8 * (8 - suc n)) })
unfolding be_varint
be_varint_split t n q r rest e hq hr =
    let tag : (t * 64 + q) / 2 ^ 6 ≡ t = omega arith in
    let one : suc n - 1 ≡ n = omega arith in
    let long : ltb (length (be_bytes n r ++ rest) + 1) (suc n) ≡ false =
      ground (arith, length-append (be_bytes n r) rest, length-be_bytes n r) in
    rw (
      read_be_one,
      tag,
      e,
      long,
      one,
      drop_exact n (be_bytes n r) rest (length-be_bytes n r),
      buf_value t n q r rest hq hr,
    )

-- A tagged encoding of `suc n` bytes of a number `y`, whose parts are the tag, `q` and `r`.
be_varint_bytes :
    (t n y q r x : ℕ) (rest : List ℕ)
    → t < 4
    → 2 ^ t ≡ suc n
    → q < 64
    → r < 256 ^ n
    → y ≡ (t * 64 + q) * 256 ^ n + r
    → (q * 256 ^ n + r) * 256 ^ (8 - suc n) / 2 ^ (8 * (8 - suc n)) ≡ x
    → be_varint standard (be_bytes (suc n) y ++ rest) ≡ ok (rest, record { value = x })
be_varint_bytes t n y q r x rest ht e hq hr hy hx =
    let small : (t * 64 + q) % 256 ≡ t * 64 + q = omega arith in
    rw (hy, be_bytes_high n (t * 64 + q) r hr, small, be_varint_split t n q r rest e hq hr, hx)

pub be_varint-encoding :
    (x : ℕ) (rest : List ℕ)
    → x < 2 ^ 62
    → be_varint standard (encoding x ++ rest) ≡ ok (rest, record { value = x })
unfolding encoding
be_varint-encoding x rest h = elim (Bool-cases (ltb x (2 ^ 6))) [
  | inl a ↦ rw a (
      be_varint_bytes 0 0 _ x 0 x rest (omega arith) refl (ground arith) (omega arith) (omega arith)
        (omega arith))
  | inr a ↦ rw a (elim (Bool-cases (ltb x (2 ^ 14))) [
    | inl b ↦ rw b (
        be_varint_bytes 1 1 _ (x / 256 ^ 1) (x % 256 ^ 1) x rest (omega arith) refl (ground arith)
          (omega arith) (omega arith) (omega arith))
    | inr b ↦ rw b (elim (Bool-cases (ltb x (2 ^ 30))) [
      | inl c ↦ rw c (
          be_varint_bytes 2 3 _ (x / 256 ^ 3) (x % 256 ^ 3) x rest (omega arith) refl (ground arith)
            (omega arith) (omega arith) (omega arith))
      | inr c ↦ rw c (
          be_varint_bytes 3 7 _ (x / 256 ^ 7) (x % 256 ^ 7) x rest (omega arith) refl (ground arith)
            (omega arith) (omega arith) (omega arith))
    ])
  ])
]

pub length-encoding :
    (v : VarInt) → v.value < 2 ^ 62 → encoding_size v ≡ some (length (encoding v.value))
unfolding encoding_size encoding
length-encoding v h = ground (
  arith,
  length-be_bytes 1 (0 * 2 ^ 6 + v.value),
  length-be_bytes 2 (1 * 2 ^ 14 + v.value),
  length-be_bytes 4 (2 * 2 ^ 30 + v.value),
  length-be_bytes 8 (3 * 2 ^ 62 + v.value),
)

-- What `put_varint` and `be_varint` do to a number of at most 62 bits.
abbrev RoundTrips : VarInt → List ℕ → ByteIo → Type 0
RoundTrips v buf io =
    (bs : List ℕ) × (put_varint io buf v ≡ some (buf ++ bs))
    × (encoding_size v ≡ some (length bs))
    × ((rest : List ℕ) → be_varint io (bs ++ rest) ≡ ok (rest, v))

-- Through every byte interface that keeps its laws, `put_varint` appends to the buffer a number of
-- bytes that is `encoding_size`, and `be_varint` reads the number back from them, whatever follows,
-- and leaves what follows. The number is below 2 ^ 62.
pub be_varint-put_varint :
    (io : ByteIo)
    → IsByteIo io
    → (v : VarInt) (buf : List ℕ) → v.value < 2 ^ 62
    → (bs : List ℕ) × (put_varint io buf v ≡ some (buf ++ bs))
      × (encoding_size v ≡ some (length bs))
      × ((rest : List ℕ) → be_varint io (bs ++ rest) ≡ ok (rest, v))
be_varint-put_varint io laws v buf h = of_standard (RoundTrips v buf) laws (
  encoding v.value,
  put_varint-standard buf v h,
  length-encoding v h,
  λ rest. be_varint-encoding v.value rest h,
)
