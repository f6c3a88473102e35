-- ===== src/VarInt.antt =====
-- src/core/parser/varint.rs: the variable-length integers of QUIC, below 2 ^ 62.
mod Defs
pub mod RoundTrip
pub mod Decode
mod Tests
pub use Defs.{VarInt, Overflow, TryFrom, fits, overflows}
unfoldable pub use Defs.{varint_max, of_u32, of_u64, encoding_size, be_varint, put_varint}
