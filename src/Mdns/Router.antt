-- ===== src/Mdns/Router.antt =====
-- src/mdns/protocol.rs: the queue of the requests that arrive, and the streams of the responses to the
-- queries that are registered.
pub mod Defs
pub mod Queues
pub mod Invariant
pub mod Deliver
pub mod Silence
mod Tests
