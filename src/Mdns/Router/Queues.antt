-- ===== src/Mdns/Router/Queues.antt =====
-- What a send does to a bounded queue: a stream keeps the oldest packets, the requests the newest.
use ddns.Prelude.{
  suc, ◌+◌, ◌-◌, ◌≤◌, ◌<◌, ◌≡◌, refl, sym, ap, subst, ◌∙◌, Bool-cases, inl, inr, ◌⊎◌, arith, ltb,
  ltb→lt,
}
use ddns.Prelude.{
  List, [], ◌∷◌, ◌++◌, length, length-append, take, drop, take_all, take_exact, none, some,
}
use ddns.Mdns.Router.Defs.{Routed, Channel, send_or_lose, discard_oldest, send_newest}

module _ (flume : Channel Routed) where
  pub record IsBounded (c : flume.Chan) : Type 0 where
    pub capacity_is : flume.capacity c ≡ 64
    pub at_most : length (flume.queued c) ≤ 64

  send-cases :
      (c : flume.Chan) (a : Routed)
      → ((length (flume.queued c) < flume.capacity c)
          × (d : flume.Chan) × (flume.try_send c a ≡ some d)
          × (flume.queued d ≡ flume.queued c ++ (a ∷ []))
          × (flume.capacity d ≡ flume.capacity c))
        ⊎ ((flume.capacity c ≤ length (flume.queued c)) × (flume.try_send c a ≡ none))
  send-cases c a = elim (Bool-cases (ltb (length (flume.queued c)) (flume.capacity c))) [
    | inl e ↦
        let room = ltb→lt (length (flume.queued c)) (flume.capacity c) e in
        let (d, sent, queued, capacity) = flume.send_room c a room in
        inl (room, d, sent, queued, capacity)
    | inr e ↦
        let full : flume.capacity c ≤ length (flume.queued c) = ground arith in
        inr (full, flume.send_full c a full)
  ]

  sent-IsBounded :
      (c d : flume.Chan) (a : Routed)
      → IsBounded c
      → length (flume.queued c) < flume.capacity c
      → flume.queued d ≡ flume.queued c ++ (a ∷ [])
      → flume.capacity d ≡ flume.capacity c
      → IsBounded d
  sent-IsBounded c d a h room queued capacity = record {
    capacity_is = capacity ∙ h.capacity_is;
    at_most = rw queued (omega (arith, length-append (flume.queued c) (a ∷ []), h.capacity_is));
  }

  pub recv-cases :
      (c : flume.Chan)
      → IsBounded c
      → ((a : Routed) × (d : flume.Chan) × (flume.try_recv c ≡ some (a, d)) × IsBounded d)
        ⊎ (flume.try_recv c ≡ none)
  recv-cases c h = go (flume.queued c) refl
    where
      go :
          (q : List Routed)
          → flume.queued c ≡ q
          → ((a : Routed) × (d : flume.Chan) × (flume.try_recv c ≡ some (a, d)) × IsBounded d)
            ⊎ (flume.try_recv c ≡ none)
      go [] e = inr (flume.recv_empty c e)
      go (a ∷ later) e =
          let (d, received, queued, capacity) = flume.recv_oldest c a later e in
          let fewer : suc (length later) ≤ 64 = subst (λ q. length q ≤ 64) e h.at_most in
          inl (
            a,
            d,
            received,
            record { capacity_is = capacity ∙ h.capacity_is; at_most = rw queued (omega arith) },
          )

  -- A stream keeps the first 64 of what it is sent.
  pub send_or_lose-queued :
      (c : flume.Chan) (a : Routed)
      → IsBounded c
      → (flume.queued (send_or_lose flume c a) ≡ take 64 (flume.queued c ++ (a ∷ [])))
        × IsBounded (send_or_lose flume c a)
  send_or_lose-queued c a h = elim (send-cases c a) [
    | inl (room, d, sent, queued, capacity) ↦
        let is_sent : send_or_lose flume c a ≡ d = rw (send_or_lose, sent) in
        let bounded = sent-IsBounded c d a h room queued capacity in
        (
          ap flume.queued is_sent
              ∙ queued
              ∙ sym (
                  take_all 64 (flume.queued c ++ (a ∷ []))
                    (omega (arith, length-append (flume.queued c) (a ∷ []), h.capacity_is))),
          subst IsBounded (sym is_sent) bounded,
        )
    | inr (full, lost) ↦
        let filled : length (flume.queued c) ≡ 64 = omega (arith, h.capacity_is, h.at_most) in
        let is_lost : send_or_lose flume c a ≡ c = rw (send_or_lose, lost) in
        (
          ap flume.queued is_lost ∙ sym (take_exact 64 (flume.queued c) (a ∷ []) filled),
          subst IsBounded (sym is_lost) h,
        )
  ]

  newest_of_full :
      (c : flume.Chan) (a : Routed)
      → IsBounded c
      → (q : List Routed) → flume.queued c ≡ q
      → length q ≡ 64
      → flume.try_send c a ≡ none
      → (flume.queued (send_newest flume c a)
          ≡ drop (length (flume.queued c) + 1 - 64) (flume.queued c ++ (a ∷ [])))
        × IsBounded (send_newest flume c a)
  newest_of_full c a h [] e n lost = absurd (omega arith)
  newest_of_full c a h (oldest ∷ later) e n lost =
      let (d, received, queued, capacity) = flume.recv_oldest c oldest later e in
      let rest : IsBounded d = record {
        capacity_is = capacity ∙ h.capacity_is;
        at_most = rw queued (omega arith);
      } in
      let (sent, bounded) = send_or_lose-queued d a rest in
      let one_over : length (oldest ∷ later) + 1 - 64 ≡ 1 = omega (arith, n) in
      let emptied : discard_oldest flume c ≡ d = rw (discard_oldest, received) in
      let moved : send_newest flume c a ≡ send_or_lose flume d a =
        rw (send_newest, lost) (ap (λ x. send_or_lose flume x a) emptied) in
      (
        ap flume.queued moved
            ∙ sent
            ∙ rw (queued, e, one_over)
                (take_all 64 (later ++ (a ∷ [])) (omega (arith, n, length-append later (a ∷ [])))),
        subst IsBounded (sym moved) bounded,
      )

  -- The requests keep the last 64.
  pub send_newest-queued :
      (c : flume.Chan) (a : Routed)
      → IsBounded c
      → (flume.queued (send_newest flume c a)
          ≡ drop (length (flume.queued c) + 1 - 64) (flume.queued c ++ (a ∷ [])))
        × IsBounded (send_newest flume c a)
  send_newest-queued c a h = elim (send-cases c a) [
    | inl (room, d, sent, queued, capacity) ↦
        let is_sent : send_newest flume c a ≡ d = rw (send_newest, sent) in
        let none_over : length (flume.queued c) + 1 - 64 ≡ 0 = omega (arith, h.capacity_is) in
        (
          rw none_over (ap flume.queued is_sent ∙ queued),
          subst IsBounded (sym is_sent) (sent-IsBounded c d a h room queued capacity),
        )
    | inr (full, lost) ↦
        newest_of_full c a h (flume.queued c) refl (omega (arith, h.capacity_is, h.at_most)) lost
  ]
