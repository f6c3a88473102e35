-- ===== src/MultiResponse.antt =====
-- src/core/wire.rs: the body of an HTTP answer, which carries any number of DNS packets with the
-- certificate and the signature of their publisher.
pub mod Defs
pub mod RoundTrip
pub mod Stream
mod Tests
