-- ===== src/Mdns.antt =====
-- src/mdns.rs and src/mdns/protocol.rs: the resolvers of multicast DNS, one for each network interface.
pub mod Groups
mod Tests
pub mod Selected
pub mod Described
pub mod Exact
pub mod Bounds
pub mod Merge
pub mod Gathered
pub mod Composed
pub mod Router
pub mod Service
pub mod Set
