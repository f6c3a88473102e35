-- ===== src/Lib.antt =====
-- A model of ddns, a resolver and publisher of endpoint addresses over multicast DNS, HTTP and HTTP/3.
-- Whatever the transport, what is exchanged is a DNS packet, which the modules below src/core/parser
-- write and read, with signature fields beside it over HTTP. The endpoints of an answer are grouped by
-- the certificate chain of their host; a multicast DNS resolver is bound to each network interface.
--
-- Parts of the program, and the modules that model them:
--   * src/core/parser/varint.rs: VarInt. The number in the E records (sequence, signature length).
--   * src/core/parser/header.rs: Header. The twelve bytes in front of a packet; Header/FlagBits has the
--     bit field, Header/Defs the struct with `be_header` and `put_header`.
--   * src/core/parser/name.rs: Name. `be_name` follows compression pointers into the whole message;
--     `put_name` writes a name and keeps the table of the suffixes that the message holds already.
--   * src/core/parser/record/endpoint.rs: Endpoint. The E record: Endpoint/Defs has the struct and its
--     setters, Endpoint/Wire the printer and the parser, Endpoint/Compat the parser of older layouts,
--     Endpoint/Sign signing and verification. Endpoint/Setters builds records by constructors and
--     setters.
--   * src/core/parser/question.rs: Question, with the loop body of `to_bytes` that writes one.
--   * src/core/parser/record.rs and record/{srv,ptr,txt}.rs: Record. Record/Defs has `be_record`,
--     `be_rdata` and the printer `put_record` of packet.rs, which leaves two bytes for RDLENGTH, writes
--     RDATA and then fills them in; Record/Data and Record/DataReads treat RDATA, Record/Sized their
--     length.
--   * src/core/parser/packet.rs: Packet. `to_bytes` writes the header and the four sections with one
--     compression table; `be_packet` checks the counts against the bytes that are there and reads the
--     sections; Packet/Section is about one section, Packet/Sections about those of a message, and
--     Packet/Build about the messages that the program makes (`query`, `answer`).
--   * src/h3/cache.rs: LookupCache. The answers that the HTTP/3 resolver keeps until they expire.
--   * src/core/wire.rs: MultiResponse. The answer with several signed records.
--   * src/core/signature.rs and the schemes of src/core/parser/sigin.rs: Signature. Signature/Words has
--     the texts, Signature/Text the functions on them, Signature/Defs `sign`, `verify` and the parsers.
--   * src/resolvers/endpoint_candidates.rs, endpoint_group.rs and the keys of src/core/certificate.rs:
--     Candidates. The records of an answer are grouped by certificate chain and filtered by what a
--     lookup asks for; Candidates/Reference has a description by lists.
--   * src/mdns.rs: Mdns/Groups (the groups of an answer, their merge over the resolvers), which
--     Mdns/Described says without the loops; Mdns/Composed puts the lookups together; and Mdns/Set
--     (the set of resolvers: Set/Defs has what runs between two waits of a task, Set/Interleaved the
--     steps of several tasks, Set/Serial whole calls).
--   * src/mdns/service.rs: Mdns/Service. A query to one resolver, around the protocol's.
--   * src/mdns/protocol.rs: Mdns/Router. The router of received packets to the streams that wait.
-- Shared: Prelude (lists, Boolean tests), Bits (bit operations as arithmetic), Utf8 (the standard
-- library's lossy decoder, which `be_name` calls), Bytes (the byte interface).
--
-- How the code is modelled. A byte slice is a list of numbers below 256, an integer a number that
-- keeps its width where the code truncates, a text the list of its UTF-8 bytes. The crates `nom`
-- and `bytes` are not part of the repository: the calls of them are the fields of the record
-- `ByteIo`, an argument of each definition that makes them, and `IsByteIo` states what they
-- document. A parser returns the model's `IResult`; a printer returns the buffer after it. A panic
-- is a `none`. An IPv6 socket address has its flow info and its scope, which an E record does not
-- carry: `wired` of Endpoint/Scope is the record without them. The type `CertificateSequence` of
-- the crate dhttp_home is the argument `try_sequence`, and a signing key with its certificates the
-- argument `Authority`. Likewise the certificate chain keys (`ChainKeys`), the transport of a query
-- (`Transport`), the bounded channels of the router (`Channel`), the protocol of a resolver, and
-- digest, base64, certificates and keys of the signature fields (`Crypto`); equality that a type
-- derives is the interface `Eq` of Prelude/Equality.
--
-- Fuel: `be_name_labels` recurses through pointers, so its model takes fuel and answers `stuck` without
-- it. `labels_fuel` gives one unit for each byte that is left and for each byte after each offset that
-- is not visited yet, which is enough on every input.
--
-- Not modelled: the transports (sockets, HTTP clients, TLS, the interface lookup by libc), logging,
-- and the printing of values for people, which only do input and output; the responder and the
-- query loop of multicast DNS, the HTTP and HTTP/3 resolvers around the cache, the set of resolvers
-- of different kinds (src/resolvers.rs) and the publishers, which are separate from the parts
-- above.
pub mod Bits
pub mod Bytes
pub mod Candidates
pub mod Endpoint
pub mod Header
pub mod LookupCache
pub mod Mdns
pub mod MultiResponse
pub mod Name
pub mod Packet
pub mod Prelude
pub mod Question
pub mod Record
pub mod Signature
pub mod Utf8
pub mod VarInt
