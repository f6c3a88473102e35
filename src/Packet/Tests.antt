-- ===== src/Packet/Tests.antt =====
-- A message with a question, an address, a service and an E record, and the theorems at it.
use ddns.Prelude.{ℕ, ◌≡◌, refl, arith, true, false, List, [], ◌∷◌, ◌++◌, Option, some}
use ddns.Bytes.{ok}
use ddns.Bytes.Standard.{standard, standard-IsByteIo}
use ddns.Name.{NameCompression}
use ddns.Name.Tests.{www_net, www_net-IsName}
use ddns.Name.Table.{IsTable, IsTable-nil}
use ddns.Question.Defs.{Question, query_a, query_in}
use ddns.Record.Defs.{
  ResourceRecord, type_a, type_srv, class_in, rdata_a, rdata_srv, put_record, be_record,
}
use ddns.Record.Data.{is_a, is_srv}
use ddns.Record.RoundTrip.{IsRecord, be_record-put_record}
use ddns.Packet.Defs.{Packet, to_bytes, be_packet}
use ddns.Packet.RoundTrip.{be_packet-to_bytes}
use ddns.Packet.Build.{answer, total, IsHost, be_packet-answer}
use ddns.Bytes.{be_bytes}
use ddns.Endpoint.Defs.{EndpointAddr, direct_v4}
use ddns.Endpoint.Base.{base_bytes, wire}
use ddns.Endpoint.Scope.{IsAddr, wired, wire_addr, wire_agent}
use ddns.Endpoint.Fields.{sequence_bytes, addr_bytes, agent_bytes, load_bytes}
use ddns.Endpoint.Signature.{signature_bytes}
use ddns.Endpoint.Setters.{Built, new_direct_v4, Built-IsEndpoint}
use ddns.Header.{standard_query, no_error}

abbrev sequences : ℕ → Option ℕ
sequences s = some s

abbrev address : ResourceRecord
address = record {
  name = www_net;
  typ = type_a;
  multicast_unique = true;
  cls = class_in;
  ttl = 300;
  rdata = rdata_a 0x7f000001;
}

-- A service on the same host: its target is a pointer.
abbrev service : ResourceRecord
service = record {
  name = www_net;
  typ = type_srv;
  multicast_unique = false;
  cls = class_in;
  ttl = 900;
  rdata = rdata_srv (record { priority = 5; weight = 0; port = 5269; target = www_net });
}

abbrev question : Question
question = record { name = www_net; prefer_unicast = true; qtype = query_a; qclass = query_in }

abbrev message : Packet
message = record {
  header = record {
    id = 7;
    flags = record {
      query = true;
      opcode = standard_query;
      authoritative = false;
      trun_cache = false;
      recursion_desired = true;
      recursion_available = false;
      zero = false;
      authenticated_data = false;
      checking_disabled = false;
      response_code = no_error;
    };
    questions_count = 1;
    answers_count = 1;
    nameservers_count = 0;
    additional_count = 1;
  };
  questions = question ∷ [];
  answers = address ∷ [];
  nameservers = [];
  additional = service ∷ [];
}

address-IsRecord : IsRecord sequences address
address-IsRecord = record {
  named = www_net-IsName;
  ttl_fits = omega arith;
  rdata_fits = is_a 0x7f000001 (omega arith);
}

service-IsRecord : IsRecord sequences service
service-IsRecord = record {
  named = www_net-IsName;
  ttl_fits = omega arith;
  rdata_fits = is_srv _ (record {
    priority_fits = omega arith;
    weight_fits = omega arith;
    port_fits = omega arith;
    named = www_net-IsName;
    short = omega arith;
  });
}

be_packet-to_bytes_example :
    (bs : List ℕ) × (to_bytes standard message ≡ some bs)
    × (be_packet standard sequences bs ≡ ok ([], message))
be_packet-to_bytes_example =
    be_packet-to_bytes standard standard-IsByteIo sequences message (record {
      header_fits = record {
        id_fits = omega arith;
        flags_fit = (tt, tt);
        questions_fit = omega arith;
        answers_fit = omega arith;
        nameservers_fit = omega arith;
        additional_fit = omega arith;
      };
      questions_counted = refl;
      answers_counted = refl;
      nameservers_counted = refl;
      additional_counted = refl;
      questions_named = (www_net-IsName, tt);
      answers_fit = (address-IsRecord, tt);
      nameservers_fit = tt;
      additional_fit = (service-IsRecord, tt);
    })

be_record-put_record_example :
    (bytes : List ℕ) × (table : NameCompression) × (put_record standard (1 ∷ []) service []
      ≡ some ((1 ∷ []) ++ bytes, table))
    × IsTable ((1 ∷ []) ++ bytes) table
    × ((after more : List ℕ)
        → be_record standard sequences (bytes ++ after) ((1 ∷ []) ++ (bytes ++ more))
          ≡ ok (after, service))
be_record-put_record_example =
    be_record-put_record standard standard-IsByteIo sequences (1 ∷ []) service [] service-IsRecord
      (IsTable-nil (1 ∷ []))

abbrev loopback : EndpointAddr
loopback = direct_v4 0x7f000001 443

loopback_fits : IsHost sequences (www_net, loopback ∷ [])
unfolding wire base_bytes sequence_bytes addr_bytes agent_bytes load_bytes signature_bytes be_bytes
    direct_v4 wired wire_addr wire_agent
loopback_fits =
    let built : Built sequences loopback =
      new_direct_v4 0x7f000001 443 (unfold IsAddr in (omega arith, omega arith)) in
    (www_net-IsName, ((Built-IsEndpoint sequences loopback built, omega arith), tt))

be_packet-answer_example :
    (bs : List ℕ) × (to_bytes standard (answer 9 ((www_net, loopback ∷ []) ∷ [])) ≡ some bs)
    × (be_packet standard sequences bs ≡ ok ([], answer 9 ((www_net, loopback ∷ []) ∷ [])))
be_packet-answer_example =
    be_packet-answer standard standard-IsByteIo sequences 9 ((www_net, loopback ∷ []) ∷ [])
      (omega arith) (loopback_fits, tt) (unfold total in omega arith)
