-- ===== src/Endpoint.antt =====
-- src/core/parser/record/endpoint.rs: the E record, its flags, its printer and its parsers.
pub mod Defs
pub mod Wire
pub mod Compat
pub mod Fields
mod Flags
pub mod Signature
pub mod Size
pub mod Scope
pub mod Base
pub mod Sign
mod Tests
pub mod Setters
pub mod RoundTrip
