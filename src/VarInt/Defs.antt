-- ===== src/VarInt/Defs.antt =====
-- The struct `VarInt`, its constructors, `be_varint` and `put_varint`. A `none` is the panic of
-- `unreachable!`; `>>` is a division and `|` of disjoint fields the native `bit_or`.
use Prim.Native.Nat.{bit_and, bit_or}
use ddns.Prelude.{ℕ, ◌+◌, ◌-◌, ◌*◌, ◌/◌, ◌%◌, ◌^◌, List, ◌∷◌, ◌++◌, Option, none, some}
use ddns.Prelude.{length, take, drop, replicate, ltb, leb, if◌then◌else◌}
use ddns.Bytes.{ByteIo, IResult, ok, err, incomplete, ◌>>=◌, from_be}

pub record VarInt : Type 0 where
  pub value : ℕ

-- `err::Overflow`
pub record Overflow : Type 0 where
  pub value : ℕ

-- `Result<VarInt, err::Overflow>`
pub data TryFrom : Type 0 where
  fits : VarInt → TryFrom
  overflows : Overflow → TryFrom

abbrev pub varint_max : ℕ
varint_max = 0x3fff_ffff_ffff_ffff

unfoldable pub of_u32 : ℕ → VarInt
of_u32 x = record { value = x }

unfoldable pub of_u64 : ℕ → TryFrom
of_u64 x =
    if leb x varint_max then fits (record { value = x }) else overflows (record { value = x })

unfoldable pub encoding_size : VarInt → Option ℕ
encoding_size v =
    if ltb v.value (2 ^ 6)
    then some 1
    else if ltb v.value (2 ^ 14)
    then some 2
    else if ltb v.value (2 ^ 30)
    then some 4
    else if ltb v.value (2 ^ 62)
    then some 8
    else none

-- The array `buf` of eight bytes, after the first byte and the copy of the others.
unfoldable pub varint_buf : ℕ → ℕ → List ℕ → List ℕ
varint_buf first_byte len remain =
    bit_and first_byte 0x3f ∷ (take (len - 1) remain ++ replicate (8 - len) 0)

module _ (io : ByteIo) where
  unfoldable pub be_varint : List ℕ → IResult VarInt
  be_varint input = do
    (remain, first_byte) ← io.be_u8 input
    let len = 2 ^ (first_byte / 2 ^ 6)
    if ltb (length remain + 1) len
        then err (incomplete (len - (length remain + 1)))
        else ok (
          drop (len - 1) remain,
          record { value = from_be (varint_buf first_byte len remain) / 2 ^ (8 * (8 - len)) },
        )

  unfoldable pub put_varint : List ℕ → VarInt → Option (List ℕ)
  put_varint buf v =
      let x = v.value in
      if ltb x (2 ^ 6)
      then some (io.put_u8 buf (x % 2 ^ 8))
      else if ltb x (2 ^ 14)
      then some (io.put_u16 buf (bit_or (1 * 2 ^ 14) (x % 2 ^ 16)))
      else if ltb x (2 ^ 30)
      then some (io.put_u32 buf (bit_or (2 * 2 ^ 30) (x % 2 ^ 32)))
      else if ltb x (2 ^ 62)
      then some (io.put_u64 buf (bit_or (3 * 2 ^ 62) x))
      else none
