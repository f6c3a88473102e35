-- ===== src/Packet/Build.antt =====
-- The messages that the program makes: `query`, `query_with_id` and `answer` with `add_answer`. The
-- random number of a query is an argument, and the hosts of an answer come in the order in which the
-- map is iterated.
use ddns.Prelude.{
  ℕ, ◌+◌, ◌%◌, ◌<◌, ◌^◌, ◌≡◌, refl, arith, true, false, List, [], ◌∷◌, ◌++◌, Option, some,
}
use ddns.Prelude.{length, length-append, All, All-append}
use ddns.Bytes.{ByteIo, IsByteIo, ok}
use ddns.Name.{Name}
use ddns.Name.Text.{IsName}
use ddns.Header.{header_default, flags_new-IsFlags}
use ddns.Endpoint.Defs.{EndpointAddr}
use ddns.Endpoint.Base.{IsEndpoint, wire}
use ddns.Question.Defs.{query_a, query_in}
use ddns.Record.Defs.{ResourceRecord, RecordType, type_e, Class, class_in, RData, rdata_e}
use ddns.Record.Data.{is_e}
use ddns.Record.RoundTrip.{IsRecord}
use ddns.Packet.Defs.{Packet, packet_default, add_question, to_bytes, be_packet}
use ddns.Packet.Sections.{IsPacket}
use ddns.Packet.RoundTrip.{be_packet-to_bytes}

abbrev set_query : Packet → Packet
set_query packet = record packet {
  header = record (packet.header) { flags = record (packet.header.flags) { query = true } };
}

unfoldable pub add_answer : Packet → Name → RecordType → Class → ℕ → RData → Packet
add_answer packet name rtype rclass ttl rdata =
    let response : ResourceRecord = record {
      name = name;
      typ = rtype;
      multicast_unique = false;
      cls = rclass;
      ttl = ttl;
      rdata = rdata;
    } in
    let packet = set_query packet in
    record packet {
      header = record (packet.header) {
        answers_count = (packet.header.answers_count + 1) % 2 ^ 16;
      };
      answers = packet.answers ++ (response ∷ []);
    }

unfoldable pub query : Name → Packet
query service_name = add_question packet_default service_name query_a query_in true

unfoldable pub query_with_id : ℕ → Name → Packet
query_with_id id service_name =
    let header = record header_default {
      id = id;
      flags = record (header_default.flags) { query = false };
    } in
    add_question (record packet_default { header = header }) service_name query_a query_in false

-- The two loops of `answer`.
unfoldable pub add_endpoints : Packet → Name → List EndpointAddr → Packet
add_endpoints packet name [] = packet
add_endpoints packet name (ep ∷ eps) =
    add_endpoints (add_answer packet name type_e class_in 300 (rdata_e ep)) name eps

unfoldable pub add_hosts : Packet → List (Name × List EndpointAddr) → Packet
add_hosts packet [] = packet
add_hosts packet ((name, eps) ∷ hosts) = add_hosts (add_endpoints packet name eps) hosts

unfoldable pub answer : ℕ → List (Name × List EndpointAddr) → Packet
answer id hosts =
    add_hosts (set_query (record packet_default { header = record header_default { id = id } }))
      hosts

-- The number of endpoints of all hosts.
unfoldable pub total : List (Name × List EndpointAddr) → ℕ
total [] = 0
total ((name, eps) ∷ hosts) = length eps + total hosts

-- Hosts whose names and endpoints can be written.
abbrev pub IsSent : (ℕ → Option ℕ) → EndpointAddr → Type 0
IsSent try_sequence ep = IsEndpoint try_sequence ep × (length (wire ep) < 2 ^ 16)

abbrev pub IsHost : (ℕ → Option ℕ) → Name × List EndpointAddr → Type 0
IsHost try_sequence (name, eps) = IsName name × All (IsSent try_sequence) eps

module _ {try_sequence : ℕ → Option ℕ} where
  add_answer-IsPacket :
      (p : Packet) (name : Name) (ep : EndpointAddr)
      → IsPacket try_sequence p
      → IsName name
      → IsSent try_sequence ep
      → length p.answers + 1 < 2 ^ 16
      → IsPacket try_sequence (add_answer p name type_e class_in 300 (rdata_e ep))
  unfolding add_answer
  add_answer-IsPacket p name ep valid named (sent, short) room =
      let header = valid.header_fits in
      let grown = length-append p.answers in
      record {
        header_fits = record {
          id_fits = header.id_fits;
          flags_fit = header.flags_fit;
          questions_fit = header.questions_fit;
          answers_fit = omega arith;
          nameservers_fit = header.nameservers_fit;
          additional_fit = header.additional_fit;
        };
        questions_counted = valid.questions_counted;
        answers_counted = rw (grown (_ ∷ [])) (omega (arith, valid.answers_counted, room));
        nameservers_counted = valid.nameservers_counted;
        additional_counted = valid.additional_counted;
        questions_named = valid.questions_named;
        answers_fit =
            All-append (IsRecord try_sequence) p.answers _ valid.answers_fit (
              record { named = named; ttl_fits = omega arith; rdata_fits = is_e ep sent short },
              tt,
            );
        nameservers_fit = valid.nameservers_fit;
        additional_fit = valid.additional_fit;
      }

  add_endpoints-IsPacket :
      (p : Packet) (name : Name) (eps : List EndpointAddr)
      → IsPacket try_sequence p
      → IsName name
      → All (IsSent try_sequence) eps
      → length p.answers + length eps < 2 ^ 16
      → IsPacket try_sequence (add_endpoints p name eps)
        × (length (add_endpoints p name eps).answers ≡ length p.answers + length eps)
  unfolding add_endpoints
  add_endpoints-IsPacket p name [] valid named h room = (valid, omega arith)
  add_endpoints-IsPacket p name (ep ∷ eps) valid named (h, hs) room =
      let next = add_answer-IsPacket p name ep valid named h (omega arith) in
      let one : length (add_answer p name type_e class_in 300 (rdata_e ep)).answers
          ≡ length p.answers + 1 =
        unfold add_answer in length-append p.answers (_ ∷ []) in
      let (rest, size) =
        add_endpoints-IsPacket (add_answer p name type_e class_in 300 (rdata_e ep)) name eps next
          named hs (omega (arith, one, room)) in
      (rest, omega (arith, size, one))

  add_hosts-IsPacket :
      (p : Packet) (hosts : List (Name × List EndpointAddr))
      → IsPacket try_sequence p
      → All (IsHost try_sequence) hosts
      → length p.answers + total hosts < 2 ^ 16
      → IsPacket try_sequence (add_hosts p hosts)
  unfolding add_hosts total
  add_hosts-IsPacket p [] valid h room = valid
  add_hosts-IsPacket p ((name, eps) ∷ hosts) valid ((named, sent), hs) room =
      let (next, size) = add_endpoints-IsPacket p name eps valid named sent (omega arith) in
      add_hosts-IsPacket (add_endpoints p name eps) hosts next hs (omega (arith, size, room))

  answer-IsPacket :
      (id : ℕ) (hosts : List (Name × List EndpointAddr))
      → id < 2 ^ 16
      → All (IsHost try_sequence) hosts
      → total hosts < 2 ^ 16
      → IsPacket try_sequence (answer id hosts)
  unfolding answer packet_default header_default
  answer-IsPacket id hosts small h room =
      add_hosts-IsPacket _ hosts
        (record {
          header_fits = record {
            id_fits = small;
            flags_fit = flags_new-IsFlags;
            questions_fit = omega arith;
            answers_fit = omega arith;
            nameservers_fit = omega arith;
            additional_fit = omega arith;
          };
          questions_counted = refl;
          answers_counted = refl;
          nameservers_counted = refl;
          additional_counted = refl;
          questions_named = tt;
          answers_fit = tt;
          nameservers_fit = tt;
          additional_fit = tt;
        })
        h (omega arith)

-- Through every byte interface that keeps its laws, what `to_bytes` writes for the message that `answer`
-- makes of an id and hosts is read by `be_packet` as that message. The id fits 16 bits, there are less
-- than 2 ^ 16 endpoints, the names can be written, and each endpoint is well formed and shorter than
-- 2 ^ 16 bytes, with the flow info and the scope of IPv6 addresses 0.
pub be_packet-answer :
    (io : ByteIo)
    → IsByteIo io
    → (try_sequence : ℕ → Option ℕ) (id : ℕ) (hosts : List (Name × List EndpointAddr)) → id < 2 ^ 16
    → All (IsHost try_sequence) hosts
    → total hosts < 2 ^ 16
    → (bs : List ℕ) × (to_bytes io (answer id hosts) ≡ some bs)
      × (be_packet io try_sequence bs ≡ ok ([], answer id hosts))
be_packet-answer io laws try_sequence id hosts small h room =
    be_packet-to_bytes io laws try_sequence (answer id hosts)
      (answer-IsPacket id hosts small h room)
