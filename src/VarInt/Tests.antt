-- ===== src/VarInt/Tests.antt =====
-- Runs of the varint functions, and the theorems at concrete inputs.
use ddns.Prelude.{
  ℕ, ◌+◌, ◌^◌, ◌<◌, ◌≤◌, ◌≡◌, ◌≢◌, ◌⊎◌, refl, arith, List, [], ◌∷◌, ◌++◌, none, some, length,
}
use ddns.Bytes.{ok, err, incomplete, read_be, be_bytes}
use ddns.Bytes.Standard.{standard, standard-IsByteIo}
use ddns.VarInt.Defs.{
  VarInt, fits, overflows, varint_buf, of_u64, encoding_size, be_varint, put_varint,
}
use ddns.VarInt.RoundTrip.{be_varint-put_varint}
use ddns.VarInt.Decode.{be_varint_reads, of_u64_limit}

abbrev v : ℕ → VarInt
v x = record { value = x }

put_16383 : put_varint standard [] (v 16383) ≡ some (0x7f ∷ 0xff ∷ [])
unfolding put_varint be_bytes
put_16383 = refl

read_16383 : be_varint standard (0x7f ∷ 0xff ∷ 9 ∷ []) ≡ ok (9 ∷ [], v 16383)
unfolding be_varint varint_buf read_be
read_16383 = refl

read_cut : be_varint standard (0xc0 ∷ 1 ∷ []) ≡ err (incomplete 6)
unfolding be_varint varint_buf read_be
read_cut = refl

be_varint-put_varint_example :
    (bs : List ℕ) × (put_varint standard (7 ∷ []) (v 16383) ≡ some ((7 ∷ []) ++ bs))
    × (encoding_size (v 16383) ≡ some (length bs))
    × ((rest : List ℕ) → be_varint standard (bs ++ rest) ≡ ok (rest, v 16383))
be_varint-put_varint_example =
    be_varint-put_varint standard standard-IsByteIo (v 16383) (7 ∷ []) (omega arith)

be_varint_reads_example :
    ((n : VarInt) × (remain : List ℕ) × (t : ℕ) × (be_varint standard (0x7f ∷ 0xff ∷ 9 ∷ [])
        ≡ ok (remain, n))
      × (n.value < 2 ^ 62)
      × (t < 4)
      × (3 ≡ 2 ^ t + length remain))
    ⊎ ((n : ℕ) × (be_varint standard (0x7f ∷ 0xff ∷ 9 ∷ []) ≡ err (incomplete n))
        × (0 < n)
        × (3 + n ≤ 8))
be_varint_reads_example =
    be_varint_reads standard standard-IsByteIo (0x7f ∷ 0xff ∷ 9 ∷ []) (omega arith)

of_u64_limit_example :
    ((of_u64 (2 ^ 62) ≡ fits (v (2 ^ 62)))
      × (put_varint standard [] (v (2 ^ 62)) ≢ none)
      × (encoding_size (v (2 ^ 62)) ≢ none))
    ⊎ ((of_u64 (2 ^ 62) ≡ overflows (record { value = 2 ^ 62 }))
        × (put_varint standard [] (v (2 ^ 62)) ≡ none)
        × (encoding_size (v (2 ^ 62)) ≡ none))
of_u64_limit_example = of_u64_limit standard [] (v (2 ^ 62))
