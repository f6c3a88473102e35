-- ===== src/Mdns/Router/Silence.antt =====
-- A query id after a stream of it is dropped, until it is registered again.
use ddns.Prelude.{
  ℕ, ◌≡◌, refl, sym, ap, ◌∙◌, Bool, true, false, Bool-cases, inl, inr, ◌==◌, List, [], ◌∷◌,
  get_elem?, set, none, some, Option-cases,
}
use mathlib.Core.Option.{some-injective, none-ne-some}
use ddns.Endpoint.Defs.{SocketAddr}
use ddns.Packet.Defs.{Packet}
use ddns.Mdns.Router.Defs.{
  Routed, Channel, Responses, PacketRouter, remove, lookup, register_query, drop_responses, deliver,
  deliver_as, poll_next, receive_query,
}

module _ (flume : Channel Routed) where
  -- What the socket and the callers do that does not register the query id.
  pub data StepBut (id : ℕ) (s : PacketRouter flume.Chan) : PacketRouter flume.Chan → Type 0 where
    delivers :
        (source : SocketAddr) (packet : Packet) → StepBut id s (deliver flume s source packet)
    registers : (other : ℕ) → (other == id) ≡ false → StepBut id s (register_query flume s other).0
    drops : (r : Responses) → StepBut id s (drop_responses flume s r)
    polls :
        (r : Responses) (packet : Routed) (t : PacketRouter flume.Chan)
        → poll_next flume s r ≡ some (packet, t)
        → StepBut id s t
    receives :
        (packet : Routed) (t : PacketRouter flume.Chan)
        → receive_query flume s ≡ some (packet, t)
        → StepBut id s t

  pub data StepsBut (id : ℕ) (s : PacketRouter flume.Chan) : PacketRouter flume.Chan → Type 0 where
    here : StepsBut id s s
    next : {t u : PacketRouter flume.Chan} → StepsBut id s t → StepBut id t u → StepsBut id s u

  lookup-remove : (id : ℕ) (qs : List (ℕ × ℕ)) → lookup flume id (remove flume id qs) ≡ none
  lookup-remove id [] = refl
  lookup-remove id ((i, st) ∷ qs) = elim (Bool-cases (i == id)) [
    | inl e ↦ rw e (lookup-remove id qs)
    | inr e ↦ rw (e, e) (lookup-remove id qs)
  ]

  -- To remove another id too adds none.
  lookup-remove_other :
      (id other : ℕ) (qs : List (ℕ × ℕ))
      → lookup flume id qs ≡ none
      → lookup flume id (remove flume other qs) ≡ none
  lookup-remove_other id other [] h = refl
  lookup-remove_other id other ((i, st) ∷ qs) h = elim (Bool-cases (i == id)) [
    | inl same ↦ absurd (none-ne-some st (sym h ∙ rw (lookup, same)))
    | inr differs ↦
        let rest : lookup flume id (remove flume other qs) ≡ none =
          lookup-remove_other id other qs (sym (rw (lookup, differs)) ∙ h) in
        elim (Bool-cases (i == other)) [ inl e ↦ rw e rest | inr e ↦ rw (e, differs) rest ]
  ]

  deliver_as_queries :
      (is_response : Bool) (id : ℕ) (s : PacketRouter flume.Chan) (packet : Routed)
      → (deliver_as flume is_response id s packet).queries ≡ s.queries
  deliver_as_queries false id s packet = refl
  deliver_as_queries true id s packet = elim (Bool-cases (id == 0)) [
    | inl e ↦ rw (deliver_as, e)
    | inr e ↦ elim (Option-cases (lookup flume id s.queries)) [
      | inl missing ↦ rw (deliver_as, e, missing)
      | inr (stream, found) ↦ rw (deliver_as, e, found)
    ]
  ]

  poll_next_queries :
      (s t : PacketRouter flume.Chan) (r : Responses) (packet : Routed)
      → poll_next flume s r ≡ some (packet, t)
      → t.queries ≡ s.queries
  unfolding poll_next
  poll_next_queries s t r packet e = elim (Option-cases (get_elem? s.streams r.stream)) [
    | inl missing ↦ absurd (none-ne-some (packet, t) (sym (rw (poll_next, missing)) ∙ e))
    | inr (chan, opened) ↦ elim (Option-cases (flume.try_recv chan)) [
      | inl empty ↦ absurd (none-ne-some (packet, t) (sym (rw (poll_next, opened, empty)) ∙ e))
      | inr ((a, d), received) ↦
          let polled : poll_next flume s r
              ≡ some (a, record s { streams = set s.streams r.stream d }) =
            rw (poll_next, opened, received) in
          sym (ap (λ p. p.1.queries) (some-injective _ _ (sym polled ∙ e)))
    ]
  ]

  receive_query_queries :
      (s t : PacketRouter flume.Chan) (packet : Routed)
      → receive_query flume s ≡ some (packet, t)
      → t.queries ≡ s.queries
  unfolding receive_query
  receive_query_queries s t packet e = elim (Option-cases (flume.try_recv s.requests)) [
    | inl empty ↦ absurd (none-ne-some (packet, t) (sym (rw (receive_query, empty)) ∙ e))
    | inr ((a, d), received) ↦
        let polled : receive_query flume s ≡ some (a, record s { requests = d }) =
          rw (receive_query, received) in
        sym (ap (λ p. p.1.queries) (some-injective _ _ (sym polled ∙ e)))
  ]

  StepBut-lookup :
      (id : ℕ) {s t : PacketRouter flume.Chan}
      → StepBut id s t
      → lookup flume id s.queries ≡ none
      → lookup flume id t.queries ≡ none
  unfolding deliver register_query drop_responses
  StepBut-lookup id {s} (delivers source packet) h =
      ap (lookup flume id)
        (deliver_as_queries packet.header.flags.query packet.header.id s (source, packet))
      ∙ h
  StepBut-lookup id {s} (registers other differs) h =
      rw differs (lookup-remove_other id other s.queries h)
  StepBut-lookup id {s} (drops r) h = lookup-remove_other id r.query_id s.queries h
  StepBut-lookup id {s} (polls r packet t e) h =
      ap (lookup flume id) (poll_next_queries s t r packet e) ∙ h
  StepBut-lookup id {s} (receives packet t e) h =
      ap (lookup flume id) (receive_query_queries s t packet e) ∙ h

  StepsBut-lookup :
      (id : ℕ) {s t : PacketRouter flume.Chan}
      → lookup flume id s.queries ≡ none
      → StepsBut id s t
      → lookup flume id t.queries ≡ none
  StepsBut-lookup id h here = h
  StepsBut-lookup id h (next steps step) = StepBut-lookup id step (StepsBut-lookup id h steps)

  ignored_by_none :
      (t : PacketRouter flume.Chan) (is_response : Bool) (id : ℕ) (packet : Routed)
      → is_response ≡ true
      → lookup flume id t.queries ≡ none
      → deliver_as flume is_response id t packet ≡ t
  ignored_by_none t false id packet is_response missing = cc
  ignored_by_none t true id packet is_response missing = elim (Bool-cases (id == 0)) [
    | inl e ↦ rw (deliver_as, e)
    | inr e ↦ rw (deliver_as, e, missing)
  ]

  -- When a stream is dropped, then after any steps that do not register its query id a response with that
  -- id changes nothing. The dropped stream need not be the one that is registered under the id: a newer
  -- stream of the same id, still held, gets no response either.
  pub drop_responses-silences :
      (s t : PacketRouter flume.Chan) (r : Responses) (source : SocketAddr) (packet : Packet)
      → StepsBut r.query_id (drop_responses flume s r) t
      → packet.header.flags.query ≡ true
      → packet.header.id ≡ r.query_id
      → deliver flume t source packet ≡ t
  unfolding deliver drop_responses
  drop_responses-silences s t r source packet steps is_response same =
      ignored_by_none t packet.header.flags.query packet.header.id (source, packet) is_response
        (ap (λ id. lookup flume id t.queries) same
          ∙ StepsBut-lookup r.query_id (lookup-remove r.query_id s.queries) steps)
