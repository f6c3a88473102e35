-- ===== src/Mdns/Bounds.antt =====
-- What each group of candidates satisfies: no source and no endpoint twice, no more endpoints than the
-- limit, and none of another family.
use ddns.Prelude.{
  ℕ, ◌≤◌, ◌≡◌, refl, true, false, not, ltb, ltb→lt, Bool-cases, inl, inr, arith, Eq, contains,
  Distinct, Distinct-snoc,
}
use ddns.Prelude.{
  List, [], ◌∷◌, map, length, length-append, All, All-retain, All-snoc, All-retain_self, All-map,
  All-mono, All-both, Distinct-map-retain, ap,
}
use ddns.Candidates.Defs.{
  ChainKeys, Transport, TaggedEndpointCandidate, EndpointCandidateGroups,
  grouped_endpoint_candidates,
}
use ddns.Candidates.Reference.{group_keys, grouped_endpoint_candidates-reference}
use ddns.Candidates.Lookup.{
  EndpointLookup, endpoint_matches_family, filter_endpoint_candidate_groups, select_group_pairs,
  is_empty,
}
use ddns.Mdns.Groups.{
  EndpointCandidateGroup, limit_or_max, push_source, push_limited, collect, group_of,
  candidate_groups,
}
use ddns.Mdns.Selected.{OfFamily, filter-OfFamily, Distinct-filter, All-select, Distinct-select}

module _ (keys : ChainKeys) (transport : Transport) {Source : Type 0} (source_eq : Eq Source) where
  record IsCollected (P : transport.Addr → Type 0) (count : ℕ)
      (r : List Source × List transport.Addr) : Type 0 where
    sources_distinct : Distinct source_eq r.0
    endpoints_distinct : Distinct transport.addr_eq r.1
    at_most : length r.1 ≤ count
    kept : All P r.1

  Distinct-push_source :
      (sources : List Source) (source : Source)
      → Distinct source_eq sources
      → Distinct source_eq (push_source keys transport source_eq sources source)
  unfolding push_source
  Distinct-push_source sources source h = elim (Bool-cases (contains source_eq sources source)) [
    | inl e ↦ rw e h
    | inr e ↦ rw e (Distinct-snoc source_eq sources source e h)
  ]

  pushed :
      {P : transport.Addr → Type 0} {count : ℕ} {sources : List Source}
      (endpoints : List transport.Addr) (endpoint : transport.Addr)
      → IsCollected P count (sources, endpoints)
      → P endpoint
      → Distinct transport.addr_eq (push_limited keys transport source_eq count endpoints endpoint)
        × (length (push_limited keys transport source_eq count endpoints endpoint) ≤ count)
        × All P (push_limited keys transport source_eq count endpoints endpoint)
  unfolding push_limited
  pushed {P} {count} endpoints endpoint h p =
      elim (Bool-cases (contains transport.addr_eq endpoints endpoint)) [
        | inl e ↦ rw e (h.endpoints_distinct, h.at_most, h.kept)
        | inr e ↦ elim (Bool-cases (ltb (length endpoints) count)) [
          | inl room ↦
              rw (e, room)
                (
                  Distinct-snoc transport.addr_eq endpoints endpoint e h.endpoints_distinct,
                  omega (
                    arith,
                    length-append endpoints (endpoint ∷ []),
                    ltb→lt (length endpoints) count room,
                  ),
                  All-snoc P endpoints endpoint h.kept p,
                )
          | inr full ↦ rw (e, full) (h.endpoints_distinct, h.at_most, h.kept)
        ]
      ]

  collect-IsCollected :
      (P : transport.Addr → Type 0) (count : ℕ) (tagged : List (Source × transport.Addr))
      (sources : List Source) (endpoints : List transport.Addr)
      → IsCollected P count (sources, endpoints)
      → All (λ (source, endpoint). P endpoint) tagged
      → IsCollected P count (collect keys transport source_eq count tagged sources endpoints)
  unfolding collect
  collect-IsCollected P count [] sources endpoints h ps = h
  collect-IsCollected P count ((source, endpoint) ∷ tagged) sources endpoints h (p, ps) =
      collect-IsCollected P count tagged _ _
        (record {
          sources_distinct = Distinct-push_source sources source h.sources_distinct;
          endpoints_distinct = (pushed endpoints endpoint h p).0;
          at_most = (pushed endpoints endpoint h p).1;
          kept = (pushed endpoints endpoint h p).2;
        })
        ps

-- A group of candidates for a lookup.
pub record IsCandidateGroup (keys : ChainKeys) (transport : Transport) {Source : Type 0}
    (source_eq : Eq Source) (lookup : EndpointLookup)
    (g : EndpointCandidateGroup keys.Key transport.Addr Source) : Type 0 where
  pub has_endpoints : is_empty g.endpoints ≡ false
  pub at_most : length g.endpoints ≤ limit_or_max lookup.record_limit
  pub endpoints_distinct : Distinct transport.addr_eq g.endpoints
  pub sources_distinct : Distinct source_eq g.sources
  pub of_family : All (λ e. endpoint_matches_family transport e lookup.family ≡ true) g.endpoints

module _ (keys : ChainKeys) (transport : Transport) {Source : Type 0} (source_eq : Eq Source) where
  abbrev Collected : EndpointLookup → EndpointCandidateGroup keys.Key transport.Addr Source → Type 0
  Collected lookup g =
      IsCollected keys transport source_eq
        (λ e. endpoint_matches_family transport e lookup.family ≡ true)
        (limit_or_max lookup.record_limit) (g.sources, g.endpoints)

  abbrev Both : EndpointLookup → EndpointCandidateGroup keys.Key transport.Addr Source → Type 0
  Both lookup g = (not (is_empty g.endpoints) ≡ true) × Collected lookup g

  Both-IsCandidateGroup :
      (lookup : EndpointLookup) (g : EndpointCandidateGroup keys.Key transport.Addr Source)
      → Both lookup g
      → IsCandidateGroup keys transport source_eq lookup g
  Both-IsCandidateGroup lookup g (some_left, h) = record {
    has_endpoints = ground arith;
    at_most = h.at_most;
    endpoints_distinct = h.endpoints_distinct;
    sources_distinct = h.sources_distinct;
    of_family = h.kept;
  }

  group_of-IsCollected :
      (lookup : EndpointLookup) (g : keys.Key × List (Source × transport.Addr))
      → OfFamily keys transport lookup.family g
      → Collected lookup (group_of keys transport source_eq lookup g)
  unfolding group_of
  group_of-IsCollected lookup (chain, tagged) h =
      collect-IsCollected keys transport source_eq
        (λ e. endpoint_matches_family transport e lookup.family ≡ true)
        (limit_or_max lookup.record_limit) tagged [] []
        (record {
          sources_distinct = tt;
          endpoints_distinct = tt;
          at_most = omega arith;
          kept = tt;
        })
        h

  chains-map-group_of :
      (lookup : EndpointLookup) (gs : EndpointCandidateGroups keys transport Source)
      → map (λ g. g.chain) (map (group_of keys transport source_eq lookup) gs) ≡ group_keys keys gs
  unfolding group_of
  chains-map-group_of lookup [] = refl
  chains-map-group_of lookup ((chain, tagged) ∷ gs) =
      ap (λ ks. chain ∷ ks) (chains-map-group_of lookup gs)

  -- No two groups of the candidates of a lookup are of one certificate chain, and each has some endpoint,
  -- no endpoint and no source twice, endpoints of the family only, and no more than the record limit.
  pub candidate_groups-IsCandidateGroup :
      (records : List (TaggedEndpointCandidate keys.Key Source)) (lookup : EndpointLookup)
      → All
          (IsCandidateGroup keys transport source_eq lookup)
          (candidate_groups keys transport source_eq records lookup)
        × Distinct keys.key_eq
            (map (λ g. g.chain) (candidate_groups keys transport source_eq records lookup))
  unfolding candidate_groups
  candidate_groups-IsCandidateGroup records lookup =
      let groups = grouped_endpoint_candidates keys transport records in
      let filtered = filter_endpoint_candidate_groups keys transport groups lookup.family in
      let selected = select_group_pairs keys filtered lookup.sequences in
      (
        All-mono (Both lookup) (IsCandidateGroup keys transport source_eq lookup)
            (Both-IsCandidateGroup lookup)
            (candidate_groups keys transport source_eq records lookup)
            (All-both (λ g. not (is_empty g.endpoints) ≡ true) (Collected lookup)
              (candidate_groups keys transport source_eq records lookup)
              (All-retain_self (λ g. not (is_empty g.endpoints))
                (map (group_of keys transport source_eq lookup) selected))
              (All-retain (Collected lookup) (λ g. not (is_empty g.endpoints))
                (map (group_of keys transport source_eq lookup) selected)
                (All-map (Collected lookup) (group_of keys transport source_eq lookup) selected (
                  All-mono (OfFamily keys transport lookup.family)
                    (λ g. Collected lookup (group_of keys transport source_eq lookup g))
                    (group_of-IsCollected lookup) selected
                    (All-select keys (OfFamily keys transport lookup.family) lookup.sequences
                      filtered (filter-OfFamily keys transport lookup.family groups)))))),
        Distinct-map-retain keys.key_eq (λ g. g.chain) _
            (map (group_of keys transport source_eq lookup) selected)
            (rw (chains-map-group_of lookup selected) (
              Distinct-select keys lookup.sequences filtered (
                Distinct-filter keys transport lookup.family groups
                  (grouped_endpoint_candidates-reference keys transport records).1))),
      )
