-- ===== src/Record.antt =====
-- src/core/parser/record.rs with record/srv.rs, record/ptr.rs and record/txt.rs: resource records, and
-- their printer in src/core/parser/packet.rs.
pub mod Defs
pub mod Data
pub mod DataReads
mod Words
mod Sized
pub mod RoundTrip
