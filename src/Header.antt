-- ===== src/Header.antt =====
-- src/core/parser/header.rs: the twelve bytes in front of a DNS message.
mod FlagBits
mod Defs
pub mod RoundTrip
mod Tests
pub use FlagBits.{Opcode, standard_query, inverse_query, server_status_request}
pub use FlagBits.{ResponseCode, no_error, format_error, server_failure, name_error, not_implemented}
pub use FlagBits.{refused, Flags, IsFlags, flags_new-IsFlags}
unfoldable pub use FlagBits.{flags_of_bits, flags_to_bits, flags_new}
pub use Defs.{Header, IsHeader}
unfoldable pub use Defs.{header_default, be_header, put_header}
