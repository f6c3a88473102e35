-- ===== src/Mdns/Router/Tests.antt =====
-- The router over a queue that is a list, and the theorems at concrete inputs.
use ddns.Prelude.{
  ℕ, ◌≤◌, ◌≡◌, refl, arith, ltb, lt→ltb, true, if◌then◌else◌, List, [], ◌∷◌, ◌++◌, length, Option,
  none, some, Bool-cases, inl, inr,
}
use ddns.Endpoint.Defs.{v4}
use ddns.Header.{header_default}
use ddns.Packet.Defs.{Packet}
use ddns.Mdns.Router.Defs.{
  Routed, Channel, Responses, PacketRouter, new, register_query, drop_responses, deliver, poll_next,
}
use ddns.Mdns.Router.Invariant.{Reach, start, next, registers, delivers, IsRouter, Reach-IsRouter}
use ddns.Mdns.Router.Silence.{StepBut, StepsBut, drop_responses-silences}
use ddns.Mdns.Router.Deliver.{Delivered, deliver-Delivered, register_query-poll_next}

abbrev send : ℕ × List Routed → Routed → Option (ℕ × List Routed)
send (n, q) a = if ltb (length q) n then some (n, q ++ (a ∷ [])) else none

abbrev receive : ℕ × List Routed → Option (Routed × (ℕ × List Routed))
receive (n, []) = none
receive (n, a ∷ q) = some (a, (n, q))

send_full : (c : ℕ × List Routed) (a : Routed) → c.0 ≤ length c.1 → send c a ≡ none
send_full (n, q) a h = elim (Bool-cases (ltb (length q) n)) [ inl e ↦ ground arith | inr e ↦ rw e ]

receive_oldest :
    (c : ℕ × List Routed) (a : Routed) (later : List Routed)
    → c.1 ≡ a ∷ later
    → (d : ℕ × List Routed) × (receive c ≡ some (a, d)) × (d.1 ≡ later) × (d.0 ≡ c.0)
receive_oldest (n, []) a later e = cc
receive_oldest (n, b ∷ q) a later e = ((n, q), cc, cc, refl)

receive_empty : (c : ℕ × List Routed) → c.1 ≡ [] → receive c ≡ none
receive_empty (n, []) e = refl
receive_empty (n, b ∷ q) e = cc

abbrev list_channel : Channel Routed
list_channel = record {
  Chan = ℕ × List Routed;
  bounded = λ n. (n, []);
  try_send = send;
  try_recv = receive;
  queued = λ c. c.1;
  capacity = λ c. c.0;
  bounded_empty = λ n. refl;
  bounded_capacity = λ n. refl;
  send_room = λ c a h. ((c.0, c.1 ++ (a ∷ [])), rw (send, lt→ltb (length c.1) c.0 h), refl, refl);
  send_full = send_full;
  recv_oldest = receive_oldest;
  recv_empty = receive_empty;
}

abbrev response : Packet
response = record {
  header = record header_default { id = 7; flags = record header_default.flags { query = true } };
  questions = [];
  answers = [];
  nameservers = [];
  additional = [];
}

registered-Reach : Reach list_channel (register_query list_channel (new list_channel) 7).0
registered-Reach = next start (registers 7 (omega arith))

Reach-IsRouter_example :
    IsRouter list_channel
      (deliver list_channel (register_query list_channel (new list_channel) 7).0 (v4 1 2) response)
Reach-IsRouter_example =
    Reach-IsRouter list_channel (next registered-Reach (delivers (v4 1 2) response))

registered-IsRouter : IsRouter list_channel (register_query list_channel (new list_channel) 7).0
registered-IsRouter = Reach-IsRouter list_channel registered-Reach

deliver-Delivered_example :
    Delivered list_channel
      (register_query list_channel (new list_channel) 7).0
      true
      7
      (v4 1 2, response)
      (deliver list_channel (register_query list_channel (new list_channel) 7).0 (v4 1 2) response)
deliver-Delivered_example =
    deliver-Delivered list_channel (register_query list_channel (new list_channel) 7).0 (v4 1 2)
      response registered-IsRouter

-- The second of two registrations of the query id 7 is silenced when the first is dropped.
abbrev twice : PacketRouter (ℕ × List Routed)
twice = (register_query list_channel (register_query list_channel (new list_channel) 7).0 7).0

abbrev first : Responses
first = record { query_id = 7; stream = 0 }

-- The drop, and then a registration of the query id 8 and a response to 7.
abbrev later : PacketRouter (ℕ × List Routed)
later =
    deliver list_channel (register_query list_channel (drop_responses list_channel twice first) 8).0
      (v4 1 2) response

later-StepsBut : StepsBut list_channel 7 (drop_responses list_channel twice first) later
later-StepsBut =
    StepsBut.next (StepsBut.next StepsBut.here (StepBut.registers 8 refl))
      (StepBut.delivers (v4 1 2) response)

drop_responses-silences_example : deliver list_channel later (v4 1 2) response ≡ later
drop_responses-silences_example =
    drop_responses-silences list_channel twice later first (v4 1 2) response later-StepsBut refl
      refl

register_query-poll_next_example :
    (t : PacketRouter (ℕ × List Routed)) × (poll_next list_channel
        (deliver list_channel
          (register_query list_channel (new list_channel) 7).0
          (v4 1 2)
          response)
        (register_query list_channel (new list_channel) 7).1
      ≡ some ((v4 1 2, response), t))
register_query-poll_next_example =
    register_query-poll_next list_channel (new list_channel) 7 (v4 1 2) response (omega arith) refl
      refl
