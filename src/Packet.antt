-- ===== src/Packet.antt =====
-- src/core/parser/packet.rs: whole messages, their parser with its count check, and their printer.
pub mod Defs
pub mod Section
pub mod Sections
pub mod RoundTrip
pub mod Build
mod Tests
