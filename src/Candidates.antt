-- ===== src/Candidates.antt =====
-- src/resolvers/endpoint_candidates.rs, src/resolvers/endpoint_group.rs, src/core/certificate.rs and the
-- candidates of src/mdns.rs: the endpoints of the records of a name, grouped by certificate chain.
pub mod Defs
pub mod Lookup
pub mod Select
pub mod Reference
pub mod Examples
mod Tests
