-- ===== src/Record/Sized.antt =====
-- RDATA behind their length, which is written over two bytes that were left for it.
use ddns.Prelude.{ℕ, suc, ◌+◌, ◌-◌, ◌/◌, ◌%◌, ◌<◌, ◌^◌, ◌≡◌, ap, arith}
use ddns.Prelude.{List, [], ◌∷◌, ◌++◌, length, length-append, set, Option, some}
use ddns.Bytes.{be_bytes, length-be_bytes}
use ddns.Bytes.Standard.{standard}
use ddns.Name.{NameCompression}
use ddns.Record.Defs.{RecordType, RData, put_sized}
use ddns.Record.Data.{IsRData, rdata_bytes, put_rdata-bytes}

-- Writing the length over the two bytes that were left for it.
patch :
    (buf rdata : List ℕ) (v : ℕ)
    → v < 2 ^ 16
    → set (set (buf ++ be_bytes 2 0 ++ rdata) (length buf) (v / 2 ^ 8)) (length buf + 1) (v % 2 ^ 8)
      ≡ buf ++ (be_bytes 2 v ++ rdata)
unfolding be_bytes
patch [] rdata v h = ground arith
patch (b ∷ buf) rdata v h =
    let next : suc (length buf) + 1 ≡ suc (length buf + 1) = omega arith in
    rw next (ap (λ t. b ∷ t) (patch buf rdata v h))

module _ {try_sequence : ℕ → Option ℕ} where
  pub put_sized-bytes :
      (buf : List ℕ) (typ : RecordType) (rdata : RData) (ctx : NameCompression)
      → IsRData try_sequence typ rdata
      → length (rdata_bytes (length buf + 2) rdata ctx).0 < 2 ^ 16
      → put_sized standard buf rdata ctx ≡ (
          let (bytes, table) = rdata_bytes (length buf + 2) rdata ctx in
          some (buf ++ (be_bytes 2 (length bytes) ++ bytes), table))
  unfolding put_sized
  put_sized-bytes buf typ rdata ctx valid short =
      let bytes = (rdata_bytes (length buf + 2) rdata ctx).0 in
      let two : length (buf ++ be_bytes 2 0) ≡ length buf + 2 =
        omega (arith, length-append buf (be_bytes 2 0), length-be_bytes 2 0) in
      let size : (length (buf ++ be_bytes 2 0 ++ bytes) - (length buf + 2)) % 2 ^ 16
          ≡ length bytes =
        omega (arith, length-append (buf ++ be_bytes 2 0) bytes, two, short) in
      rw (
        put_sized,
        put_rdata-bytes (buf ++ be_bytes 2 0) typ rdata ctx valid,
        two,
        size,
        patch buf bytes (length bytes) short,
      )
