-- ===== src/Candidates/Reference.antt =====
-- What the loop computes, said without it: the admitted records, their keys in the order in which they
-- come first, and with each key its endpoints in the order of the records.
use ddns.Prelude.{
  ◌≡◌, refl, sym, ap, ◌∙◌, true, false, Eq, contains, Distinct, Bool-cases, inl, inr, ◌⊎◌, beq_refl,
  beq_sym, contains-snoc, Distinct-snoc, arith,
}
use ddns.Prelude.{
  List, [], ◌∷◌, ◌++◌, map, Option, none, some, Option-cases, if◌then◌else◌, append_assoc,
  append-nil, or-eq-false,
}
use ddns.Candidates.Defs.{
  ChainKeys, Transport, TaggedEndpointCandidate, EndpointCandidateGroups, is_primary_chain_key,
  effective_chain_key, try_from, push_endpoint, group_candidate, group_from,
  grouped_endpoint_candidates,
}

module _ {K : Type 0} (eq : Eq K) where
  -- A key is added behind the others when it is new.
  abbrev pub add_key : List K → K → List K
  add_key ks k = if contains eq ks k then ks else ks ++ (k ∷ [])

  pub add_key_absent :
      (ks : List K) (j k : K)
      → contains eq (add_key ks j) k ≡ false
      → (contains eq ks k ≡ false) × (eq.beq j k ≡ false)
  add_key_absent ks j k h = elim (Bool-cases (contains eq ks j)) [
    | inl e ↦ elim (Bool-cases (eq.beq j k)) [
      | inl same ↦ ground (arith, ap (contains eq ks) ((eq.beq_iff j k).0 same))
      | inr other ↦ ground arith
    ]
    | inr e ↦ ground (arith, contains-snoc eq ks j k)
  ]

  pub Distinct-add_key : (ks : List K) (k : K) → Distinct eq ks → Distinct eq (add_key ks k)
  Distinct-add_key ks k h = elim (Bool-cases (contains eq ks k)) [
    | inl e ↦ rw e h
    | inr e ↦ rw e (Distinct-snoc eq ks k e h)
  ]

module _ (keys : ChainKeys) {A : Type 0} where
  abbrev pub keys_from : List keys.Key → List (keys.Key × A) → List keys.Key
  keys_from ks [] = ks
  keys_from ks ((k, a) ∷ ps) = keys_from (add_key keys.key_eq ks k) ps

  abbrev pub with_key : keys.Key → List (keys.Key × A) → List A
  with_key k [] = []
  with_key k ((j, a) ∷ ps) =
      let rest = with_key k ps in if keys.key_eq.beq k j then a ∷ rest else rest

  abbrev pub each : List (keys.Key × A) → List keys.Key → List (keys.Key × List A)
  each ps [] = []
  each ps (k ∷ ks) = (k, with_key k ps) ∷ each ps ks

  abbrev pub reference : List (keys.Key × A) → List (keys.Key × List A)
  reference ps = each ps (keys_from [] ps)

  abbrev pub group_keys : List (keys.Key × List A) → List keys.Key
  group_keys groups = map (λ (k, xs). k) groups

  each_keys : (ps : List (keys.Key × A)) (ks : List keys.Key) → group_keys (each ps ks) ≡ ks
  each_keys ps [] = refl
  each_keys ps (k ∷ ks) = ap (λ js. k ∷ js) (each_keys ps ks)

  each-append :
      (ps : List (keys.Key × A)) (js ks : List keys.Key)
      → each ps (js ++ ks) ≡ each ps js ++ each ps ks
  each-append ps [] ks = refl
  each-append ps (j ∷ js) ks = rw (each-append ps js ks)

  with_key-append :
      (k : keys.Key) (ps qs : List (keys.Key × A))
      → with_key k (ps ++ qs) ≡ with_key k ps ++ with_key k qs
  with_key-append k [] qs = refl
  with_key-append k ((j, a) ∷ ps) qs = elim (Bool-cases (keys.key_eq.beq k j)) [
    | inl e ↦ rw (e, with_key-append k ps qs)
    | inr e ↦ rw (e, with_key-append k ps qs)
  ]

  keys_from-append :
      (ks : List keys.Key) (ps qs : List (keys.Key × A))
      → keys_from ks (ps ++ qs) ≡ keys_from (keys_from ks ps) qs
  keys_from-append ks [] qs = refl
  keys_from-append ks ((j, a) ∷ ps) qs = keys_from-append (add_key keys.key_eq ks j) ps qs

  Distinct-keys_from :
      (ks : List keys.Key) (ps : List (keys.Key × A))
      → Distinct keys.key_eq ks
      → Distinct keys.key_eq (keys_from ks ps)
  Distinct-keys_from ks [] h = h
  Distinct-keys_from ks ((j, a) ∷ ps) h =
      Distinct-keys_from (add_key keys.key_eq ks j) ps (Distinct-add_key keys.key_eq ks j h)

  -- A key that is not among those of the records has no record.
  pub keys_from_absent :
      (ks : List keys.Key) (ps : List (keys.Key × A)) (k : keys.Key)
      → contains keys.key_eq (keys_from ks ps) k ≡ false
      → (contains keys.key_eq ks k ≡ false) × (with_key k ps ≡ [])
  keys_from_absent ks [] k h = (h, refl)
  keys_from_absent ks ((j, a) ∷ ps) k h =
      let (added, none_) = keys_from_absent (add_key keys.key_eq ks j) ps k h in
      let (old, new) = add_key_absent keys.key_eq ks j k added in
      (old, rw (beq_sym keys.key_eq k j, new) none_)

abbrev pub Entry : ChainKeys → Transport → Type 0 → Type 0
Entry keys transport T = keys.Key × (T × transport.Addr)

module _ (keys : ChainKeys) (transport : Transport) {T : Type 0} where
  -- The key and the endpoint of a record that is grouped.
  unfoldable pub admit : TaggedEndpointCandidate keys.Key T → Option (Entry keys transport T)
  admit c =
      let chain_key = effective_chain_key keys c.dns_record c.fallback_chain_key in
      if is_primary_chain_key keys chain_key
      then elim (try_from transport c.dns_record) [
        | some endpoint ↦ some (chain_key, (c.tag, endpoint))
        | none ↦ none
      ]
      else none

  unfoldable pub admitted :
      List (TaggedEndpointCandidate keys.Key T) → List (Entry keys transport T)
  admitted [] = []
  admitted (c ∷ cs) =
      let rest = admitted cs in elim (admit c) [ some entry ↦ entry ∷ rest | none ↦ rest ]

  push_new :
      (ks : List keys.Key) (k : keys.Key) (x : T × transport.Addr)
      (ps : List (Entry keys transport T))
      → contains keys.key_eq ks k ≡ false
      → push_endpoint keys transport k x (each keys ps ks)
        ≡ each keys (ps ++ ((k, x) ∷ [])) ks ++ ((k, x ∷ []) ∷ [])
  unfolding push_endpoint
  push_new [] k x ps h = refl
  push_new (j ∷ ks) k x ps h =
      let (other, absent) = or-eq-false (keys.key_eq.beq j k) (contains keys.key_eq ks k) h in
      rw (with_key-append keys j ps ((k, x) ∷ []), other, push_new ks k x ps absent, append-nil)

  same_without :
      (ks : List keys.Key) (k : keys.Key) (x : T × transport.Addr)
      (ps : List (Entry keys transport T))
      → contains keys.key_eq ks k ≡ false
      → each keys (ps ++ ((k, x) ∷ [])) ks ≡ each keys ps ks
  same_without [] k x ps h = refl
  same_without (j ∷ ks) k x ps h =
      let (other, absent) = or-eq-false (keys.key_eq.beq j k) (contains keys.key_eq ks k) h in
      rw (with_key-append keys j ps ((k, x) ∷ []), other, same_without ks k x ps absent, append-nil)

  push_old :
      (ks : List keys.Key) (k : keys.Key) (x : T × transport.Addr)
      (ps : List (Entry keys transport T))
      → contains keys.key_eq ks k ≡ true
      → Distinct keys.key_eq ks
      → push_endpoint keys transport k x (each keys ps ks) ≡ each keys (ps ++ ((k, x) ∷ [])) ks
  unfolding push_endpoint
  push_old [] k x ps h d = ground arith
  push_old (j ∷ ks) k x ps h (n, d) = elim (Bool-cases (keys.key_eq.beq j k)) [
    | inl e ↦
        let gone : contains keys.key_eq ks k ≡ false =
          ap (contains keys.key_eq ks) (sym ((keys.key_eq.beq_iff j k).0 e)) ∙ n in
        rw (with_key-append keys j ps ((k, x) ∷ []), e, same_without ks k x ps gone)
    | inr e ↦ rw (
      with_key-append keys j ps ((k, x) ∷ []),
      e,
      push_old ks k x ps (ground arith) d,
      append-nil,
    )
  ]

  push_reference :
      (k : keys.Key) (x : T × transport.Addr) (ps : List (Entry keys transport T))
      → push_endpoint keys transport k x (reference keys ps) ≡ reference keys (ps ++ ((k, x) ∷ []))
  push_reference k x ps = elim (Bool-cases (contains keys.key_eq (keys_from keys [] ps) k)) [
    | inl e ↦
        let k_again : add_key keys.key_eq (keys_from keys [] ps) k ≡ keys_from keys [] ps = rw e in
        push_old (keys_from keys [] ps) k x ps e (Distinct-keys_from keys [] ps tt)
        ∙ ap (each keys (ps ++ ((k, x) ∷ [])))
            (sym k_again ∙ sym (keys_from-append keys [] ps ((k, x) ∷ [])))
    | inr e ↦
        let k_new : add_key keys.key_eq (keys_from keys [] ps) k
            ≡ keys_from keys [] ps ++ (k ∷ []) =
          rw e in
        let alone : with_key keys k (ps ++ ((k, x) ∷ [])) ≡ x ∷ [] =
          with_key-append keys k ps ((k, x) ∷ [])
          ∙ rw ((keys_from_absent keys [] ps k e).1, beq_refl keys.key_eq k) in
        push_new (keys_from keys [] ps) k x ps e
        ∙ rw (
          keys_from-append keys [] ps ((k, x) ∷ []),
          k_new,
          each-append keys (ps ++ ((k, x) ∷ [])) (keys_from keys [] ps) (k ∷ []),
          alone,
        )
  ]

  admit-cases :
      (c : TaggedEndpointCandidate keys.Key T) (groups : EndpointCandidateGroups keys transport T)
      → ((admit c ≡ none) × (group_candidate keys transport groups c ≡ groups))
        ⊎ ((k : keys.Key) × (x : T × transport.Addr) × (admit c ≡ some (k, x))
            × (group_candidate keys transport groups c ≡ push_endpoint keys transport k x groups))
  unfolding admit group_candidate
  admit-cases c groups =
      let k = effective_chain_key keys c.dns_record c.fallback_chain_key in
      elim (Bool-cases (is_primary_chain_key keys k)) [
        | inr secondary ↦ inl (rw secondary, rw secondary)
        | inl primary ↦ elim (Option-cases (try_from transport c.dns_record)) [
          | inl mixed ↦ inl (rw (primary, mixed), rw (primary, mixed))
          | inr (endpoint, converted) ↦
              inr (k, (c.tag, endpoint), rw (primary, converted), rw (primary, converted))
        ]
      ]

  group_reference :
      (ps : List (Entry keys transport T)) (cs : List (TaggedEndpointCandidate keys.Key T))
      → group_from keys transport (reference keys ps) cs ≡ reference keys (ps ++ admitted cs)
  unfolding group_from admitted
  group_reference ps [] = rw (append-nil ps)
  group_reference ps (c ∷ cs) = elim (admit-cases c (reference keys ps)) [
    | inl (out, same) ↦ rw (admitted, out, same) (group_reference ps cs)
    | inr (k, x, taken, pushed) ↦
        rw (admitted, taken, pushed, push_reference k x ps)
          (group_reference (ps ++ ((k, x) ∷ [])) cs
            ∙ ap (reference keys) (append_assoc ps ((k, x) ∷ []) (admitted cs)))
  ]

  -- The loop puts the endpoints of the records of primary certificates into groups: a group for each
  -- key, no key twice, in the order in which the keys come first, and in it the endpoints with the key,
  -- in the order of the records.
  pub grouped_endpoint_candidates-reference :
      (cs : List (TaggedEndpointCandidate keys.Key T))
      → (grouped_endpoint_candidates keys transport cs ≡ reference keys (admitted cs))
        × Distinct keys.key_eq (group_keys keys (grouped_endpoint_candidates keys transport cs))
  unfolding grouped_endpoint_candidates
  grouped_endpoint_candidates-reference cs = (
    group_reference [] cs,
    rw (group_reference [] cs, each_keys keys (admitted cs) (keys_from keys [] (admitted cs)))
        (Distinct-keys_from keys [] (admitted cs) tt),
  )
