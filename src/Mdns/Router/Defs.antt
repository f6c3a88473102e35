-- ===== src/Mdns/Router/Defs.antt =====
-- `PacketRouter` as a state that each operation returns anew. A channel of the crate flume is a
-- parameter, `Channel` has the calls that the code makes and what they document; the concurrent map is an
-- association list. A stream of responses is known by its place among the channels that were made.
use ddns.Prelude.{
  ℕ, ◌≤◌, ◌<◌, ◌≡◌, Bool, true, false, not, ◌&&◌, ◌==◌, if◌then◌else◌, List, [], ◌∷◌, ◌++◌, length,
  get_elem?, set, retain,
}
use ddns.Prelude.{Option, none, some}
use ddns.Endpoint.Defs.{SocketAddr}
use ddns.Packet.Defs.{Packet}

abbrev pub Routed : Type 0
Routed = SocketAddr × Packet

-- A bounded queue: what is queued is what was sent and is not received yet, the oldest first.
pub record Channel (A : Type 0) : Type 1 where
  pub Chan : Type 0
  pub bounded : ℕ → Chan
  pub try_send : Chan → A → Option Chan
  pub try_recv : Chan → Option (A × Chan)
  pub queued : Chan → List A
  pub capacity : Chan → ℕ
  pub bounded_empty : (n : ℕ) → queued (bounded n) ≡ []
  pub bounded_capacity : (n : ℕ) → capacity (bounded n) ≡ n
  pub send_room :
      (c : Chan) (a : A)
      → length (queued c) < capacity c
      → (d : Chan) × (try_send c a ≡ some d)
        × (queued d ≡ queued c ++ (a ∷ []))
        × (capacity d ≡ capacity c)
  pub send_full : (c : Chan) (a : A) → capacity c ≤ length (queued c) → try_send c a ≡ none
  pub recv_oldest :
      (c : Chan) (a : A) (later : List A)
      → queued c ≡ a ∷ later
      → (d : Chan) × (try_recv c ≡ some (a, d)) × (queued d ≡ later) × (capacity d ≡ capacity c)
  pub recv_empty : (c : Chan) → queued c ≡ [] → try_recv c ≡ none

abbrev pub max_deque_size : ℕ
max_deque_size = 64

-- A stream that is not dropped: `Responses` with its query id and its channel.
pub record Responses : Type 0 where
  pub query_id : ℕ
  pub stream : ℕ

-- `responses` are the streams that callers hold; the receiving ends stand beside the router's state.
pub record PacketRouter (Chan : Type 0) : Type 0 where
  pub requests : Chan
  pub streams : List Chan
  pub queries : List (ℕ × ℕ)
  pub responses : List Responses

module _ (flume : Channel Routed) where
  unfoldable pub new : PacketRouter flume.Chan
  new = record {
    requests = flume.bounded max_deque_size;
    streams = [];
    queries = [];
    responses = [];
  }

  abbrev pub remove : ℕ → List (ℕ × ℕ) → List (ℕ × ℕ)
  remove query_id queries = retain (λ (id, stream). not (id == query_id)) queries

  abbrev pub lookup : ℕ → List (ℕ × ℕ) → Option ℕ
  lookup query_id [] = none
  lookup query_id ((id, stream) ∷ queries) =
      let rest = lookup query_id queries in if id == query_id then some stream else rest

  unfoldable pub register_query : PacketRouter flume.Chan → ℕ → PacketRouter flume.Chan × Responses
  register_query router query_id =
      let stream = length router.streams in
      let opened : Responses = record { query_id = query_id; stream = stream } in
      (
        record router {
          streams = router.streams ++ (flume.bounded max_deque_size ∷ []);
          queries = (query_id, stream) ∷ remove query_id router.queries;
          responses = opened ∷ router.responses;
        },
        opened,
      )

  -- `Drop` of the stream: whatever is registered under its query id is removed.
  unfoldable pub drop_responses : PacketRouter flume.Chan → Responses → PacketRouter flume.Chan
  drop_responses router dropped = record router {
    queries = remove dropped.query_id router.queries;
    responses =
        retain (λ r. not (r.query_id == dropped.query_id && r.stream == dropped.stream))
          router.responses;
  }

  -- A packet that finds its channel full is lost.
  abbrev pub send_or_lose : flume.Chan → Routed → flume.Chan
  send_or_lose chan packet = elim (flume.try_send chan packet) [ some sent ↦ sent | none ↦ chan ]

  abbrev pub discard_oldest : flume.Chan → flume.Chan
  discard_oldest chan = elim (flume.try_recv chan) [ some (oldest, rest) ↦ rest | none ↦ chan ]

  -- When the queue of requests is full its oldest one makes room.
  abbrev pub send_newest : flume.Chan → Routed → flume.Chan
  send_newest chan packet = elim (flume.try_send chan packet) [
    | some sent ↦ sent
    | none ↦ send_or_lose (discard_oldest chan) packet
  ]

  abbrev pub send_to : List flume.Chan → ℕ → Routed → List flume.Chan
  send_to streams stream packet = elim (get_elem? streams stream) [
    | some chan ↦ set streams stream (send_or_lose chan packet)
    | none ↦ streams
  ]

  -- The `match` on `(packet.is_query(), packet.id())`.
  abbrev pub deliver_as : Bool → ℕ → PacketRouter flume.Chan → Routed → PacketRouter flume.Chan
  deliver_as true query_id router packet =
      if query_id == 0 then router else elim (lookup query_id router.queries) [
        | some stream ↦ record router { streams = send_to router.streams stream packet }
        | none ↦ router
      ]
  deliver_as false query_id router packet = record router {
    requests = send_newest router.requests packet;
  }

  unfoldable pub deliver : PacketRouter flume.Chan → SocketAddr → Packet → PacketRouter flume.Chan
  deliver router source packet =
      deliver_as packet.header.flags.query packet.header.id router (source, packet)

  -- A poll of a stream and of the requests: the oldest packet, or nothing yet.
  unfoldable pub poll_next :
      PacketRouter flume.Chan → Responses → Option (Routed × PacketRouter flume.Chan)
  poll_next router r = elim (get_elem? router.streams r.stream) [
    | none ↦ none
    | some chan ↦ elim (flume.try_recv chan) [
      | none ↦ none
      | some (packet, rest) ↦
          some (packet, record router { streams = set router.streams r.stream rest })
    ]
  ]

  unfoldable pub receive_query : PacketRouter flume.Chan → Option (Routed × PacketRouter flume.Chan)
  receive_query router = elim (flume.try_recv router.requests) [
    | none ↦ none
    | some (packet, rest) ↦ some (packet, record router { requests = rest })
  ]
