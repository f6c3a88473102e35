-- ===== src/Signature.antt =====
-- src/core/signature.rs and the tables of src/core/parser/sigin.rs: the signature fields of a DNS packet,
-- how they are made and checked.
pub mod Schemes
pub mod Text
pub mod Words
pub mod Defs
pub mod Authority
pub mod Input
pub mod Fields
pub mod RoundTrip
mod Tests
