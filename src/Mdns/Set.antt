-- ===== src/Mdns/Set.antt =====
-- src/mdns.rs: the set of resolvers, one for each binding to a network interface, which several tasks
-- change at once.
pub mod Defs
pub mod Interleaved
pub mod Shutdown
pub mod Lookups
pub mod Serial
pub mod Reconcile
mod Tests
