-- ===== src/Candidates/Select.antt =====
-- src/resolvers/endpoint_group.rs: the endpoints of one group, that of a sequence or the first one.
use ddns.Prelude.{
  ℕ, ◌≡◌, refl, sym, ap, ◌∙◌, Bool, true, false, ◌&&◌, ◌==◌, ==_iff, Bool-cases, Bool-ext, inl, inr,
}
use ddns.Prelude.{
  List, [], ◌∷◌, ◌++◌, map, All, Option, Option-cases, none, some, retain, find, contains,
  and-eq-true, and-true, beq_sym,
}
use ddns.Name.Table.{name_eq_iff}
use ddns.Endpoint.Defs.{EndpointAddr}
use ddns.Candidates.Defs.{
  ChainKeys, Transport, TaggedEndpointCandidate, EndpointCandidateGroups, is_primary_chain_key,
  primary_chain_key, grouped_endpoint_candidates, primary_kind_flag, effective_chain_key, try_from,
}
use ddns.Candidates.Reference.{
  Entry, admit, admitted, keys_from, with_key, each, reference, keys_from_absent,
  grouped_endpoint_candidates-reference,
}

module _ (keys : ChainKeys) (transport : Transport) {T : Type 0} where
  abbrev of_sequence : ℕ → keys.Key × List (T × transport.Addr) → Bool
  of_sequence s (chain_key, endpoints) =
      is_primary_chain_key keys chain_key && (keys.sequence chain_key == s)

  -- `map(|(_, endpoints)| endpoints).unwrap_or_default()`
  abbrev endpoints_or_default :
      Option (keys.Key × List (T × transport.Addr)) → List (T × transport.Addr)
  endpoints_or_default none = []
  endpoints_or_default (some (key, endpoints)) = endpoints

  abbrev first :
      EndpointCandidateGroups keys transport T → Option (keys.Key × List (T × transport.Addr))
  first [] = none
  first (g ∷ groups) = some g

  unfoldable pub selected_endpoint_records_with_fallback_chain_keys :
      List (TaggedEndpointCandidate keys.Key T) → Option ℕ → List (T × transport.Addr)
  selected_endpoint_records_with_fallback_chain_keys records sequence =
      let groups = grouped_endpoint_candidates keys transport records in
      elim sequence [
        | some s ↦ endpoints_or_default (find (of_sequence s) groups)
        | none ↦ endpoints_or_default (first groups)
      ]

  unfoldable pub selected_endpoint_records_for_sequence :
      List (T × EndpointAddr) → Option ℕ → List (T × transport.Addr)
  selected_endpoint_records_for_sequence records sequence =
      selected_endpoint_records_with_fallback_chain_keys
        (map (λ (tag, r). record { tag = tag; dns_record = r; fallback_chain_key = none }) records)
        sequence

  unfoldable pub selected_endpoint_records : List (T × EndpointAddr) → List (T × transport.Addr)
  selected_endpoint_records records =
      selected_endpoint_records_with_fallback_chain_keys
        (map (λ (tag, r). record { tag = tag; dns_record = r; fallback_chain_key = none }) records)
        none

module _ (keys : ChainKeys) (transport : Transport) where
  unfoldable pub selected_endpoint_addrs : List EndpointAddr → List transport.Addr
  selected_endpoint_addrs records =
      map (λ (tag, endpoint). endpoint)
        (selected_endpoint_records keys transport (map (λ r. (tt {0}, r)) records))

  unfoldable pub selected_endpoint_addrs_for_sequence :
      List EndpointAddr → Option ℕ → List transport.Addr
  selected_endpoint_addrs_for_sequence records (some s) =
      map (λ (tag, endpoint). endpoint)
        (selected_endpoint_records_for_sequence keys transport (map (λ r. (tt {0}, r)) records)
          (some s))
  selected_endpoint_addrs_for_sequence records none = selected_endpoint_addrs records

module _ (keys : ChainKeys) (transport : Transport) {T : Type 0} where
  abbrev pub of_first_key : List (Entry keys transport T) → List (T × transport.Addr)
  of_first_key [] = []
  of_first_key ((k, x) ∷ ps) = with_key keys k ((k, x) ∷ ps)

  keys_from-cons :
      (k : keys.Key) (ks : List keys.Key) (ps : List (Entry keys transport T))
      → (rest : List keys.Key) × (keys_from keys (k ∷ ks) ps ≡ k ∷ rest)
  keys_from-cons k ks [] = (ks, refl)
  keys_from-cons k ks ((j, x) ∷ ps) = elim (Bool-cases (contains keys.key_eq (k ∷ ks) j)) [
    | inl e ↦ rw e (keys_from-cons k ks ps)
    | inr e ↦ rw e (keys_from-cons k (ks ++ (j ∷ [])) ps)
  ]

  first-reference :
      (ps : List (Entry keys transport T))
      → endpoints_or_default keys transport (first keys transport (reference keys ps))
        ≡ of_first_key ps
  first-reference [] = refl
  first-reference ((k, x) ∷ ps) =
      let (rest, e) = keys_from-cons k [] ps in
      ap
        (λ ks.
          endpoints_or_default keys transport (first keys transport (each keys ((k, x) ∷ ps) ks)))
        e

  -- The test of a group is whether its key is the primary one of the sequence.
  of_sequence_key :
      (s : ℕ) (k : keys.Key) (xs : List (T × transport.Addr))
      → of_sequence keys transport s (k, xs) ≡ keys.key_eq.beq k (primary_chain_key keys s)
  unfolding is_primary_chain_key primary_chain_key
  of_sequence_key s k xs =
      let target = keys.new s keys.client_and_server in
      Bool-ext (of_sequence keys transport s (k, xs)) (keys.key_eq.beq k target)
        (λ h.
          let (flag, number) = and-eq-true (is_primary_chain_key keys k) (keys.sequence k == s) h in
          (keys.key_eq.beq_iff k target).1 (
            keys.key_known k target
              ((==_iff (keys.sequence k) s).0 number
                ∙ sym (keys.sequence_new s keys.client_and_server))
              ((name_eq_iff (keys.kind_flag k) primary_kind_flag).0 flag
                ∙ sym (keys.flag_primary s))))
        (λ h. rw ((keys.key_eq.beq_iff k target).0 h) (
          and-true (is_primary_chain_key keys target) (keys.sequence target == s)
            ((name_eq_iff (keys.kind_flag target) primary_kind_flag).1 (keys.flag_primary s))
            ((==_iff (keys.sequence target) s).1 (keys.sequence_new s keys.client_and_server))))

  find_group :
      (s : ℕ) (ps : List (Entry keys transport T)) (ks : List keys.Key)
      → (contains keys.key_eq ks (primary_chain_key keys s) ≡ false
          → with_key keys (primary_chain_key keys s) ps ≡ [])
      → endpoints_or_default keys transport (find (of_sequence keys transport s) (each keys ps ks))
        ≡ with_key keys (primary_chain_key keys s) ps
  find_group s ps [] h = sym (h refl)
  find_group s ps (k ∷ ks) h = elim (Bool-cases (keys.key_eq.beq k (primary_chain_key keys s))) [
    | inl e ↦ rw (
      of_sequence_key s k (with_key keys k ps),
      e,
      (keys.key_eq.beq_iff k (primary_chain_key keys s)).0 e,
    )
    | inr e ↦
        rw (of_sequence_key s k (with_key keys k ps), e) (find_group s ps ks (λ n. h (rw (e, n))))
  ]

  -- Among entries of primary keys, those with the key of a sequence are those with the sequence.
  with_primary_key :
      (s : ℕ) (ps : List (Entry keys transport T))
      → All (λ (k, x). is_primary_chain_key keys k ≡ true) ps
      → with_key keys (primary_chain_key keys s) ps
        ≡ map (λ (k, x). x) (retain (λ (k, x). keys.sequence k == s) ps)
  with_primary_key s [] h = refl
  with_primary_key s ((k, x) ∷ ps) (p, h) =
      let same : (keys.sequence k == s) ≡ keys.key_eq.beq (primary_chain_key keys s) k =
        ap (λ b. b && (keys.sequence k == s)) (sym p)
        ∙ of_sequence_key s k []
        ∙ beq_sym keys.key_eq k (primary_chain_key keys s) in
      elim (Bool-cases (keys.sequence k == s)) [
        | inl e ↦ rw (e, sym same ∙ e, with_primary_key s ps h)
        | inr e ↦ rw (e, sym same ∙ e, with_primary_key s ps h)
      ]

  admitted-Primary :
      (cs : List (TaggedEndpointCandidate keys.Key T))
      → All (λ (k, x). is_primary_chain_key keys k ≡ true) (admitted keys transport cs)
  unfolding admitted admit
  admitted-Primary [] = tt
  admitted-Primary (c ∷ cs) =
      let k = effective_chain_key keys c.dns_record c.fallback_chain_key in
      elim (Bool-cases (is_primary_chain_key keys k)) [
        | inr secondary ↦ rw (admitted, secondary) (admitted-Primary cs)
        | inl primary ↦ elim (Option-cases (try_from transport c.dns_record)) [
          | inl mixed ↦ rw (admitted, primary, mixed) (admitted-Primary cs)
          | inr (endpoint, converted) ↦
              rw (admitted, primary, converted) (primary, admitted-Primary cs)
        ]
      ]

  -- With a sequence the endpoints that are selected are those of the admitted records whose key has it,
  -- in the order of the records; without one, those whose key is that of the first admitted record.
  pub selected_endpoint_records-admitted :
      (cs : List (TaggedEndpointCandidate keys.Key T))
      → ((s : ℕ)
          → selected_endpoint_records_with_fallback_chain_keys keys transport cs (some s)
            ≡ map
                (λ (k, x). x)
                (retain (λ (k, x). keys.sequence k == s) (admitted keys transport cs)))
        × (selected_endpoint_records_with_fallback_chain_keys keys transport cs none
            ≡ of_first_key (admitted keys transport cs))
  unfolding selected_endpoint_records_with_fallback_chain_keys
  selected_endpoint_records-admitted cs =
      let ps = admitted keys transport cs in
      let (grouped, distinct) = grouped_endpoint_candidates-reference keys transport cs in
      (
        λ s.
            ap
              (λ groups.
                endpoints_or_default keys transport (find (of_sequence keys transport s) groups))
              grouped
            ∙ find_group s ps (keys_from keys [] ps)
                (λ n. (keys_from_absent keys [] ps (primary_chain_key keys s) n).1)
            ∙ with_primary_key s ps (admitted-Primary cs),
        ap (λ groups. endpoints_or_default keys transport (first keys transport groups)) grouped
            ∙ first-reference ps,
      )
