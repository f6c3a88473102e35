-- ===== src/Mdns/Router/Deliver.antt =====
-- Where a packet goes: a request to the end of the requests, a response to the stream of its query id.
use ddns.Prelude.{
  ℕ, zero, suc, ◌+◌, ◌-◌, ◌<◌, ◌≡◌, ◌≢◌, refl, sym, ap, subst, ==_iff, ◌∙◌, Bool, true, false,
  if◌then◌else◌, true-ne-false, Bool-cases, inl, inr, ◌⊎◌, arith, ◌==◌, beq_refl, nat_eq,
}
use ddns.Prelude.{
  List, [], ◌∷◌, ◌++◌, length, length-append, take, drop, get_elem?, set, get_elem?-set_self,
  get_elem?-set_ne, Option, none, some, Option-cases, All,
}
use mathlib.Core.Option.{some-injective, none-ne-some}
use ddns.Endpoint.Defs.{SocketAddr}
use ddns.Packet.Defs.{Packet}
use ddns.Mdns.Router.Queues.{IsBounded, send_or_lose-queued, send_newest-queued}
use ddns.Mdns.Router.Invariant.{IsRouter, fresh-IsBounded, is_held, All-get}
use ddns.Mdns.Router.Defs.{
  Routed, Channel, Responses, PacketRouter, lookup, register_query, deliver, deliver_as, poll_next,
  send_to, send_or_lose, max_deque_size,
}

module _ (flume : Channel Routed) where
  abbrev pub queued_at : Option flume.Chan → List Routed
  queued_at (some chan) = flume.queued chan
  queued_at none = []

  -- What is queued for the stream at a place.
  abbrev pub waiting : PacketRouter flume.Chan → ℕ → List Routed
  waiting s stream = queued_at (get_elem? s.streams stream)

  -- What becomes of a packet: a request, a response of a registered query id, or neither.
  pub data Delivered (s : PacketRouter flume.Chan) (is_query : Bool) (id : ℕ) (packet : Routed)
      (t : PacketRouter flume.Chan) : Type 0 where
    requested :
        is_query ≡ false
        → flume.queued t.requests
          ≡ drop
              (length (flume.queued s.requests) + 1 - 64)
              (flume.queued s.requests ++ (packet ∷ []))
        → t.streams ≡ s.streams
        → Delivered s is_query id packet t
    responded :
        is_query ≡ true
        → (stream : ℕ) → lookup flume id s.queries ≡ some stream
        → ((place : ℕ)
            → waiting t place ≡ (
                if stream == place
                then take 64 (waiting s place ++ (packet ∷ []))
                else waiting s place))
        → t.requests ≡ s.requests
        → Delivered s is_query id packet t
    ignored :
        is_query ≡ true
        → ((id ≡ 0) ⊎ (lookup flume id s.queries ≡ none))
        → t ≡ s
        → Delivered s is_query id packet t

  lookup-All :
      (P : ℕ × ℕ → Type 0) (id stream : ℕ) (qs : List (ℕ × ℕ))
      → All P qs
      → lookup flume id qs ≡ some stream
      → P (id, stream)
  lookup-All P id stream [] h e = absurd (none-ne-some _ e)
  lookup-All P id stream ((i, st) ∷ qs) (h, hs) e = elim (Bool-cases (i == id)) [
    | inl same ↦
        let first : lookup flume id ((i, st) ∷ qs) ≡ some st = rw (lookup, same) in
        let found_here : st ≡ stream = some-injective st stream (sym first ∙ e) in
        subst P (λ j. ((==_iff i id).0 same j, found_here j)) h
    | inr other ↦
        let later : lookup flume id ((i, st) ∷ qs) ≡ lookup flume id qs = rw (lookup, other) in
        lookup-All P id stream qs hs (sym later ∙ e)
  ]

  opened :
      (n id stream : ℕ) (rs : List Responses)
      → All (λ r. r.stream < n) rs
      → is_held rs id stream ≡ true
      → stream < n
  opened n id stream [] h e = ground arith
  opened n id stream (r ∷ rs) (h, hs) e = elim (Bool-cases (is_held rs id stream)) [
    | inl k ↦ opened n id stream rs hs k
    | inr k ↦ ground arith
  ]

  get_opened :
      (streams : List flume.Chan) (i : ℕ)
      → i < length streams
      → (c : flume.Chan) × (get_elem? streams i ≡ some c)
  get_opened [] i h = absurd (omega arith)
  get_opened (c ∷ streams) zero h = (c, refl)
  get_opened (c ∷ streams) (suc i) h = get_opened streams i (omega arith)

  -- What waits at each place when the channel of one is replaced by what a send made of it.
  waiting-set :
      (streams : List flume.Chan) (stream : ℕ) (chan sent : flume.Chan) (packet : Routed)
      → stream < length streams
      → get_elem? streams stream ≡ some chan
      → flume.queued sent ≡ take 64 (flume.queued chan ++ (packet ∷ []))
      → (place : ℕ)
      → queued_at (get_elem? (set streams stream sent) place) ≡ (
          if stream == place
          then take 64 (queued_at (get_elem? streams place) ++ (packet ∷ []))
          else queued_at (get_elem? streams place))
  waiting-set streams stream chan sent packet inside here queued place =
      elim (Bool-cases (stream == place)) [
        | inl same ↦ rw same (
            subst
              (λ other.
                queued_at (get_elem? (set streams stream sent) other)
                ≡ take 64 (queued_at (get_elem? streams other) ++ (packet ∷ [])))
              ((==_iff stream place).0 same)
              (ap queued_at (get_elem?-set_self streams stream sent inside)
                ∙ queued
                ∙ ap (λ q. take 64 (queued_at q ++ (packet ∷ []))) (sym here)))
        | inr apart ↦
            let other : stream ≢ place =
              λ k. true-ne-false (sym ((==_iff stream place).1 k) ∙ apart) in
            rw apart (ap queued_at (get_elem?-set_ne streams sent other))
      ]

  deliver_as-Delivered :
      (is_query : Bool) (id : ℕ) (s : PacketRouter flume.Chan) (packet : Routed)
      → IsRouter flume s
      → Delivered s is_query id packet (deliver_as flume is_query id s packet)
  deliver_as-Delivered false id s packet h =
      requested refl (send_newest-queued flume s.requests packet h.requests_bounded).0 refl
  deliver_as-Delivered true id s packet h = elim (Bool-cases (id == 0)) [
    | inl zero_id ↦ ignored refl (inl ((==_iff id 0).0 zero_id)) (rw (deliver_as, zero_id))
    | inr real ↦ elim (Option-cases (lookup flume id s.queries)) [
      | inl missing ↦ ignored refl (inr missing) (rw (deliver_as, real, missing))
      | inr (stream, registered) ↦
          let held =
            lookup-All (λ (i, st). is_held s.responses i st ≡ true) id stream s.queries
              h.queries_held registered in
          let place = opened (length s.streams) id stream s.responses h.responses_opened held in
          let (chan, here) = get_opened s.streams stream place in
          let (queued, bounded) =
            send_or_lose-queued flume chan packet
              (All-get (IsBounded flume) s.streams stream chan h.streams_bounded here) in
          let sent : send_to flume s.streams stream packet
              ≡ set s.streams stream (send_or_lose flume chan packet) =
            rw (send_to, here) in
          let after : deliver_as flume true id s packet
              ≡ record s { streams = set s.streams stream (send_or_lose flume chan packet) } =
            rw (deliver_as, real, registered, sent) in
          subst (Delivered s true id packet) (sym after) (
            responded refl stream registered
              (waiting-set s.streams stream chan (send_or_lose flume chan packet) packet place here
                queued)
              refl)
    ]
  ]

  -- A request is queued behind the others, of which the last 64 are kept, and no stream changes. A
  -- response with the query id of a registered stream is queued there, where the first 64 are kept, and
  -- no other stream and no request changes. Any other response changes nothing.
  pub deliver-Delivered :
      (s : PacketRouter flume.Chan) (source : SocketAddr) (packet : Packet)
      → IsRouter flume s
      → Delivered s packet.header.flags.query packet.header.id
          (source, packet)
          (deliver flume s source packet)
  unfolding deliver
  deliver-Delivered s source packet h =
      deliver_as-Delivered packet.header.flags.query packet.header.id s (source, packet) h

  get_elem?-last :
      (streams : List flume.Chan) (c : flume.Chan)
      → get_elem? (streams ++ (c ∷ [])) (length streams) ≡ some c
  get_elem?-last [] c = refl
  get_elem?-last (d ∷ streams) c = get_elem?-last streams c

  poll_next-some :
      (s : PacketRouter flume.Chan) (r : Responses) (c d : flume.Chan) (packet : Routed)
      → get_elem? s.streams r.stream ≡ some c
      → flume.try_recv c ≡ some (packet, d)
      → poll_next flume s r ≡ some (packet, record s { streams = set s.streams r.stream d })
  unfolding poll_next
  poll_next-some s r c d packet here received = rw (poll_next, here, received)

  first_response :
      (s : PacketRouter flume.Chan) (id : ℕ) (packet : Routed)
      → 0 < id
      → (t : PacketRouter flume.Chan) × (poll_next flume
            (deliver_as flume true id (register_query flume s id).0 packet)
            (register_query flume s id).1
          ≡ some (packet, t))
  unfolding register_query
  first_response s id packet real =
      let fresh = flume.bounded max_deque_size in
      let n = length s.streams in
      let streams = s.streams ++ (fresh ∷ []) in
      let (queued, bounded) = send_or_lose-queued flume fresh packet (fresh-IsBounded flume) in
      let one : flume.queued (send_or_lose flume fresh packet) ≡ packet ∷ [] =
        queued ∙ ap (λ q. take 64 (q ++ (packet ∷ []))) (flume.bounded_empty 64) in
      let (d, received, rest, capacity) =
        flume.recv_oldest (send_or_lose flume fresh packet) packet [] one in
      let sent : send_to flume streams n packet ≡ set streams n (send_or_lose flume fresh packet) =
        rw (send_to, get_elem?-last s.streams fresh) in
      let place : n < length streams = omega (arith, length-append s.streams (fresh ∷ [])) in
      let nonzero : (id == 0) ≡ false = ground arith in
      let registered = (register_query flume s id).0 in
      let found : lookup flume id registered.queries ≡ some n = rw (lookup, beq_refl nat_eq id) in
      let delivered : deliver_as flume true id registered packet
          ≡ record registered { streams = set streams n (send_or_lose flume fresh packet) } =
        rw (deliver_as, nonzero, found, sent) in
      (
        _,
        ap (λ t. poll_next flume t (register_query flume s id).1) delivered
            ∙ poll_next-some _ (register_query flume s id).1 (send_or_lose flume fresh packet) d
                packet (get_elem?-set_self streams n (send_or_lose flume fresh packet) place)
                received,
      )

  -- A response to a query that is just registered is the first that its stream gives.
  pub register_query-poll_next :
      (s : PacketRouter flume.Chan) (id : ℕ) (source : SocketAddr) (packet : Packet)
      → 0 < id
      → packet.header.flags.query ≡ true
      → packet.header.id ≡ id
      → (t : PacketRouter flume.Chan) × (poll_next flume
            (deliver flume (register_query flume s id).0 source packet)
            (register_query flume s id).1
          ≡ some ((source, packet), t))
  unfolding deliver
  register_query-poll_next s id source packet real is_query same =
      subst
        (λ q.
          (t : PacketRouter flume.Chan) × (poll_next flume
              (deliver_as flume q packet.header.id (register_query flume s id).0 (source, packet))
              (register_query flume s id).1
            ≡ some ((source, packet), t)))
        (sym is_query)
        (subst
          (λ i.
            (t : PacketRouter flume.Chan) × (poll_next flume
                (deliver_as flume true i (register_query flume s id).0 (source, packet))
                (register_query flume s id).1
              ≡ some ((source, packet), t)))
          (sym same) (first_response s id (source, packet) real))
