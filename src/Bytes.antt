-- ===== src/Bytes.antt =====
-- The byte-level interface of the parsers and printers. The crates `nom` (streaming parsers) and
-- `bytes` (`BufMut`) are not part of the repository: their calls are the fields of `ByteIo`, an
-- argument of every definition that makes them, and `IsByteIo` states their documented behaviour.
-- A byte slice is a list of numbers below 256.
mod Result
mod BigEndian
pub mod Standard
pub use Result.{IResult, NomError, ErrorKind, ok, err, incomplete, error, failure, stuck}
pub use Result.{verify, alt, eof, too_large, length_value, ◌>>=◌}
pub use Result.{IResult-cases}
unfoldable pub use BigEndian.{be_bytes, from_be_acc, from_be, read_be, read_take}
pub use BigEndian.{from_be_acc-append, from_be_acc-be_bytes, from_be_acc-zeros, from_be-be_bytes}
pub use BigEndian.{be_bytes_high, length-be_bytes, be_bytes-IsByte, read_be-be_bytes}
pub use BigEndian.{
  read_take-append, read_take_exact, read_take-ok, length-read_take, length-read_be,
}
pub use BigEndian.{read_take_short, read_be_one, read_take_all, read_be_all}
use ddns.Prelude.{ℕ, ◌<◌, ◌≡◌, List, ◌++◌}

-- The calls that the code makes: `nom::number::streaming`, `nom::bytes::streaming::take`, and the
-- `put_*` methods of `bytes::BufMut` on a growing buffer.
pub record ByteIo : Type 0 where
  pub be_u8 : List ℕ → IResult ℕ
  pub be_u16 : List ℕ → IResult ℕ
  pub be_u32 : List ℕ → IResult ℕ
  pub be_u128 : List ℕ → IResult ℕ
  pub take : ℕ → List ℕ → IResult (List ℕ)
  pub put_u8 : List ℕ → ℕ → List ℕ
  pub put_u16 : List ℕ → ℕ → List ℕ
  pub put_u32 : List ℕ → ℕ → List ℕ
  pub put_u64 : List ℕ → ℕ → List ℕ
  pub put_u128 : List ℕ → ℕ → List ℕ
  pub put_slice : List ℕ → List ℕ → List ℕ

-- What the crates document: a streaming number parser reads its bytes in network order or asks for
-- the missing ones, `take` likewise, and a `put_*` call appends to the buffer in network order.
pub record IsByteIo (io : ByteIo) : Type 0 where
  pub be_u8_reads : (s : List ℕ) → io.be_u8 s ≡ read_be 1 s
  pub be_u16_reads : (s : List ℕ) → io.be_u16 s ≡ read_be 2 s
  pub be_u32_reads : (s : List ℕ) → io.be_u32 s ≡ read_be 4 s
  pub be_u128_reads : (s : List ℕ) → io.be_u128 s ≡ read_be 16 s
  pub take_reads : (n : ℕ) (s : List ℕ) → io.take n s ≡ read_take n s
  pub put_u8_appends : (buf : List ℕ) (v : ℕ) → io.put_u8 buf v ≡ buf ++ be_bytes 1 v
  pub put_u16_appends : (buf : List ℕ) (v : ℕ) → io.put_u16 buf v ≡ buf ++ be_bytes 2 v
  pub put_u32_appends : (buf : List ℕ) (v : ℕ) → io.put_u32 buf v ≡ buf ++ be_bytes 4 v
  pub put_u64_appends : (buf : List ℕ) (v : ℕ) → io.put_u64 buf v ≡ buf ++ be_bytes 8 v
  pub put_u128_appends : (buf : List ℕ) (v : ℕ) → io.put_u128 buf v ≡ buf ++ be_bytes 16 v
  pub put_slice_appends : (buf bs : List ℕ) → io.put_slice buf bs ≡ buf ++ bs
