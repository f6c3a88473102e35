-- ===== src/Mdns/Router/Invariant.antt =====
-- What holds of the router whatever its callers and the socket do, and in any order.
use ddns.Prelude.{
  ℕ, zero, suc, ◌<◌, ◌≡◌, refl, sym, ap, subst, ◌&&◌, ◌||◌, ◌∙◌, Bool, true, false, not, Bool-cases,
  inl, inr, arith, ◌==◌,
}
use ddns.Prelude.{
  List, [], ◌∷◌, ◌++◌, map, length, length-append, get_elem?, set, length-set, retain, none, some,
  Option-cases, All, All-append, All-retain, All-mono, All-both, All-retain_self, Distinct,
  Distinct-map-retain, contains, beq_refl, nat_eq,
}
use mathlib.Core.Option.{some-injective, none-ne-some}
use ddns.Endpoint.Defs.{SocketAddr}
use ddns.Packet.Defs.{Packet}
use ddns.Mdns.Router.Queues.{IsBounded, recv-cases, send_or_lose-queued, send_newest-queued}
use ddns.Mdns.Router.Defs.{
  Routed, Channel, Responses, PacketRouter, new, remove, register_query, drop_responses, deliver,
  deliver_as, poll_next, receive_query, send_to, send_or_lose, lookup, max_deque_size,
}

pub All-set {ℓ κ} :
    {A : Type ℓ} (P : A → Type κ) (xs : List A) (i : ℕ) (v : A)
    → All P xs
    → P v
    → All P (set xs i v)
All-set P [] i v h p = h
All-set P (x ∷ xs) zero v (h, hs) p = (p, hs)
All-set P (x ∷ xs) (suc i) v (h, hs) p = (h, All-set P xs i v hs p)

pub All-get {ℓ κ} :
    {A : Type ℓ} (P : A → Type κ) (xs : List A) (i : ℕ) (v : A)
    → All P xs
    → get_elem? xs i ≡ some v
    → P v
All-get P [] i v h e = cc
All-get P (x ∷ xs) zero v (h, hs) e = subst P (some-injective x v e) h
All-get P (x ∷ xs) (suc i) v (h, hs) e = All-get P xs i v hs e

-- Whether the stream of a query id and a channel is held.
abbrev pub is_held : List Responses → ℕ → ℕ → Bool
is_held [] id stream = false
is_held (r ∷ rs) id stream = (r.query_id == id && r.stream == stream) || is_held rs id stream

held_also :
    (r : Responses) (rs : List Responses) (id stream : ℕ)
    → is_held rs id stream ≡ true
    → is_held (r ∷ rs) id stream ≡ true
held_also r rs id stream h = ground arith

-- A stream of another query id is still held when one is dropped.
held_retain :
    (dropped : Responses) (id stream : ℕ)
    → (id == dropped.query_id) ≡ false
    → (rs : List Responses)
    → is_held
        (retain (λ r. not (r.query_id == dropped.query_id && r.stream == dropped.stream)) rs)
        id
        stream
      ≡ is_held rs id stream
held_retain dropped id stream e [] = refl
held_retain dropped id stream e (r ∷ rs) = ground (arith, held_retain dropped id stream e rs)

absent-retain :
    (id : ℕ) (qs : List (ℕ × ℕ))
    → contains nat_eq (map (λ (i, stream). i) (retain (λ (i, stream). not (i == id)) qs)) id ≡ false
absent-retain id [] = refl
absent-retain id ((i, stream) ∷ qs) = elim (Bool-cases (i == id)) [
  | inl e ↦ rw e (absent-retain id qs)
  | inr e ↦ ground (arith, e, absent-retain id qs)
]

module _ (flume : Channel Routed) where
  pub record IsRouter (s : PacketRouter flume.Chan) : Type 0 where
    pub requests_bounded : IsBounded flume s.requests
    pub streams_bounded : All (IsBounded flume) s.streams
    pub queries_held : All (λ (id, stream). is_held s.responses id stream ≡ true) s.queries
    pub queries_distinct : Distinct nat_eq (map (λ (id, stream). id) s.queries)
    pub responses_opened : All (λ r. r.stream < length s.streams) s.responses

  -- What the callers and the socket do, one call at a time.
  pub data Step (s : PacketRouter flume.Chan) : PacketRouter flume.Chan → Type 0 where
    delivers : (source : SocketAddr) (packet : Packet) → Step s (deliver flume s source packet)
    registers : (id : ℕ) → 0 < id → Step s (register_query flume s id).0
    drops :
        (r : Responses)
        → is_held s.responses r.query_id r.stream ≡ true
        → Step s (drop_responses flume s r)
    polls :
        (r : Responses) (packet : Routed) (t : PacketRouter flume.Chan)
        → poll_next flume s r ≡ some (packet, t)
        → Step s t
    receives :
        (packet : Routed) (t : PacketRouter flume.Chan)
        → receive_query flume s ≡ some (packet, t)
        → Step s t

  pub data Reach : PacketRouter flume.Chan → Type 0 where
    start : Reach (new flume)
    next : {s t : PacketRouter flume.Chan} → Reach s → Step s t → Reach t

  pub fresh-IsBounded : IsBounded flume (flume.bounded max_deque_size)
  fresh-IsBounded = record {
    capacity_is = flume.bounded_capacity 64;
    at_most = rw (flume.bounded_empty 64) (omega arith);
  }

  new-IsRouter : IsRouter (new flume)
  unfolding new
  new-IsRouter = record {
    requests_bounded = fresh-IsBounded;
    streams_bounded = tt;
    queries_held = tt;
    queries_distinct = tt;
    responses_opened = tt;
  }

  send_to-IsBounded :
      (streams : List flume.Chan) (stream : ℕ) (packet : Routed)
      → All (IsBounded flume) streams
      → All (IsBounded flume) (send_to flume streams stream packet)
        × (length (send_to flume streams stream packet) ≡ length streams)
  send_to-IsBounded streams stream packet h = elim (Option-cases (get_elem? streams stream)) [
    | inl e ↦ rw (send_to, e) (h, refl)
    | inr (chan, e) ↦
        rw (send_to, e)
          (
            All-set (IsBounded flume) streams stream (send_or_lose flume chan packet) h
                (send_or_lose-queued flume chan packet
                  (All-get (IsBounded flume) streams stream chan h e)).1,
            length-set streams stream (send_or_lose flume chan packet),
          )
  ]

  deliver_as-IsRouter :
      (is_query : Bool) (id : ℕ) (s : PacketRouter flume.Chan) (packet : Routed)
      → IsRouter s
      → IsRouter (deliver_as flume is_query id s packet)
  deliver_as-IsRouter false id s packet h = record {
    requests_bounded = (send_newest-queued flume s.requests packet h.requests_bounded).1;
    streams_bounded = h.streams_bounded;
    queries_held = h.queries_held;
    queries_distinct = h.queries_distinct;
    responses_opened = h.responses_opened;
  }
  deliver_as-IsRouter true id s packet h = elim (Bool-cases (id == 0)) [
    | inl zero_id ↦ rw (deliver_as, zero_id) h
    | inr real ↦ elim (Option-cases (lookup flume id s.queries)) [
      | inl missing ↦ rw (deliver_as, real, missing) h
      | inr (stream, registered) ↦
          rw (deliver_as, real, registered)
            (record {
              requests_bounded = h.requests_bounded;
              streams_bounded = (send_to-IsBounded s.streams stream packet h.streams_bounded).0;
              queries_held = h.queries_held;
              queries_distinct = h.queries_distinct;
              responses_opened =
                  rw (send_to-IsBounded s.streams stream packet h.streams_bounded).1
                    h.responses_opened;
            })
    ]
  ]

  deliver-IsRouter :
      (s : PacketRouter flume.Chan) (source : SocketAddr) (packet : Packet)
      → IsRouter s
      → IsRouter (deliver flume s source packet)
  unfolding deliver
  deliver-IsRouter s source packet h =
      deliver_as-IsRouter packet.header.flags.query packet.header.id s (source, packet) h

  register_query-IsRouter :
      (s : PacketRouter flume.Chan) (id : ℕ) → IsRouter s → IsRouter (register_query flume s id).0
  unfolding register_query
  register_query-IsRouter s id h =
      let opened : Responses = record { query_id = id; stream = length s.streams } in
      record {
        requests_bounded = h.requests_bounded;
        streams_bounded =
            All-append (IsBounded flume) s.streams _ h.streams_bounded (fresh-IsBounded, tt);
        queries_held = (
          ground (arith, beq_refl nat_eq id, beq_refl nat_eq (length s.streams)),
          All-retain (λ (i, stream). is_held (opened ∷ s.responses) i stream ≡ true) _ s.queries
              (All-mono (λ (i, stream). is_held s.responses i stream ≡ true)
                (λ (i, stream). is_held (opened ∷ s.responses) i stream ≡ true)
                (λ (i, stream) k. held_also opened s.responses i stream k) s.queries
                h.queries_held),
        );
        queries_distinct = (
          absent-retain id s.queries,
          Distinct-map-retain nat_eq (λ (i, stream). i) _ s.queries h.queries_distinct,
        );
        responses_opened = (
          omega (arith, length-append s.streams (flume.bounded max_deque_size ∷ [])),
          All-mono (λ r. r.stream < length s.streams)
              (λ r. r.stream < length (s.streams ++ (flume.bounded max_deque_size ∷ [])))
              (λ r k. omega (arith, length-append s.streams (flume.bounded max_deque_size ∷ [])))
              s.responses h.responses_opened,
        );
      }

  drop_responses-IsRouter :
      (s : PacketRouter flume.Chan) (r : Responses)
      → IsRouter s
      → IsRouter (drop_responses flume s r)
  unfolding drop_responses
  drop_responses-IsRouter s r h = record {
    requests_bounded = h.requests_bounded;
    streams_bounded = h.streams_bounded;
    queries_held =
        All-mono
          (λ (i, stream). (not (i == r.query_id) ≡ true) × (is_held s.responses i stream ≡ true))
          (λ (i, stream). is_held (drop_responses flume s r).responses i stream ≡ true)
          (λ (i, stream) (other, k). held_retain r i stream (ground arith) s.responses ∙ k)
          (remove flume r.query_id s.queries)
          (All-both (λ (i, stream). not (i == r.query_id) ≡ true)
            (λ (i, stream). is_held s.responses i stream ≡ true) (remove flume r.query_id s.queries)
            (All-retain_self (λ (i, stream). not (i == r.query_id)) s.queries)
            (All-retain (λ (i, stream). is_held s.responses i stream ≡ true) _ s.queries
              h.queries_held));
    queries_distinct = Distinct-map-retain nat_eq (λ (i, stream). i) _ s.queries h.queries_distinct;
    responses_opened =
        All-retain (λ q. q.stream < length s.streams) _ s.responses h.responses_opened;
  }

  poll_next-IsRouter :
      (s t : PacketRouter flume.Chan) (r : Responses) (packet : Routed)
      → IsRouter s
      → poll_next flume s r ≡ some (packet, t)
      → IsRouter t
  unfolding poll_next
  poll_next-IsRouter s t r packet h e = elim (Option-cases (get_elem? s.streams r.stream)) [
    | inl missing ↦
        let nothing : poll_next flume s r ≡ none = rw (poll_next, missing) in
        absurd (none-ne-some _ (sym nothing ∙ e))
    | inr (chan, opened) ↦
        elim (recv-cases flume chan
          (All-get (IsBounded flume) s.streams r.stream chan h.streams_bounded opened)) [
            | inr empty ↦
                let nothing : poll_next flume s r ≡ none = rw (poll_next, opened, empty) in
                absurd (none-ne-some _ (sym nothing ∙ e))
            | inl (a, d, received, bounded) ↦
                let polled : poll_next flume s r
                    ≡ some (a, record s { streams = set s.streams r.stream d }) =
                  rw (poll_next, opened, received) in
                subst IsRouter (ap (λ p. p.1) (some-injective _ _ (sym polled ∙ e))) (record {
                  requests_bounded = h.requests_bounded;
                  streams_bounded =
                      All-set (IsBounded flume) s.streams r.stream d h.streams_bounded bounded;
                  queries_held = h.queries_held;
                  queries_distinct = h.queries_distinct;
                  responses_opened = rw (length-set s.streams r.stream d) h.responses_opened;
                })
          ]
  ]

  receive_query-IsRouter :
      (s t : PacketRouter flume.Chan) (packet : Routed)
      → IsRouter s
      → receive_query flume s ≡ some (packet, t)
      → IsRouter t
  unfolding receive_query
  receive_query-IsRouter s t packet h e = elim (recv-cases flume s.requests h.requests_bounded) [
    | inr empty ↦
        let nothing : receive_query flume s ≡ none = rw (receive_query, empty) in
        absurd (none-ne-some _ (sym nothing ∙ e))
    | inl (a, d, received, bounded) ↦
        let polled : receive_query flume s ≡ some (a, record s { requests = d }) =
          rw (receive_query, received) in
        subst IsRouter (ap (λ p. p.1) (some-injective _ _ (sym polled ∙ e))) (record {
          requests_bounded = bounded;
          streams_bounded = h.streams_bounded;
          queries_held = h.queries_held;
          queries_distinct = h.queries_distinct;
          responses_opened = h.responses_opened;
        })
  ]

  Step-IsRouter : {s t : PacketRouter flume.Chan} → Step s t → IsRouter s → IsRouter t
  Step-IsRouter {s} (delivers source packet) h = deliver-IsRouter s source packet h
  Step-IsRouter {s} (registers id real) h = register_query-IsRouter s id h
  Step-IsRouter {s} (drops r held) h = drop_responses-IsRouter s r h
  Step-IsRouter {s} (polls r packet t e) h = poll_next-IsRouter s t r packet h e
  Step-IsRouter {s} (receives packet t e) h = receive_query-IsRouter s t packet h e

  -- Whatever the socket delivers and the callers do, in any order: the queue of requests and every
  -- stream hold at most 64 packets, no query id is registered twice, and each registration is of a
  -- stream that is still held.
  pub Reach-IsRouter : {s : PacketRouter flume.Chan} → Reach s → IsRouter s
  Reach-IsRouter start = new-IsRouter
  Reach-IsRouter (next r st) = Step-IsRouter st (Reach-IsRouter r)
