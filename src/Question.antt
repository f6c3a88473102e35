-- ===== src/Question.antt =====
-- src/core/parser/question.rs: the questions of a message, and their printer in src/core/parser/packet.rs.
pub mod Defs
pub mod RoundTrip
