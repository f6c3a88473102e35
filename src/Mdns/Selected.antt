-- ===== src/Mdns/Selected.antt =====
-- What the filters of a lookup leave of the groups: their families and keys.
use ddns.Prelude.{◌≡◌, refl, true, Distinct}
use ddns.Prelude.{
  List, [], ◌∷◌, map, All, All-take, All-retain, All-retain_self, All-always, Distinct-map-retain,
  Distinct-map-take, ap, Option, none, some,
}
use ddns.Candidates.Defs.{ChainKeys, Transport, EndpointCandidateGroups}
use ddns.Candidates.Reference.{group_keys}
use ddns.Candidates.Lookup.{
  Family, SequenceQuery, default, exact, limit, all, endpoint_matches_family,
  filter_endpoint_candidate_groups, retain_family, select_group_pairs,
}

module _ (keys : ChainKeys) (transport : Transport) {Source : Type 0} where
  abbrev pub OfFamily : Option Family → keys.Key × List (Source × transport.Addr) → Type 0
  OfFamily family (k, tagged) =
      All (λ (source, e). endpoint_matches_family transport e family ≡ true) tagged

  retain_family-OfFamily :
      (family : Family) (gs : EndpointCandidateGroups keys transport Source)
      → All (OfFamily (some family)) (retain_family keys transport family gs)
  retain_family-OfFamily family [] = tt
  retain_family-OfFamily family ((k, tagged) ∷ gs) = (
    All-retain_self (λ (source, e). endpoint_matches_family transport e (some family)) tagged,
    retain_family-OfFamily family gs,
  )

  pub filter-OfFamily :
      (family : Option Family) (gs : EndpointCandidateGroups keys transport Source)
      → All (OfFamily family) (filter_endpoint_candidate_groups keys transport gs family)
  unfolding filter_endpoint_candidate_groups endpoint_matches_family
  filter-OfFamily none gs =
      All-always (OfFamily none)
        (λ (k, tagged).
          All-always (λ (source, e). endpoint_matches_family transport e none ≡ true) (λ t. refl)
            tagged)
        gs
  filter-OfFamily (some family) gs =
      All-retain (OfFamily (some family)) _ (retain_family keys transport family gs)
        (retain_family-OfFamily family gs)

  retain_family_keys :
      (family : Family) (gs : EndpointCandidateGroups keys transport Source)
      → group_keys keys (retain_family keys transport family gs) ≡ group_keys keys gs
  retain_family_keys family [] = refl
  retain_family_keys family ((k, tagged) ∷ gs) = ap (λ ks. k ∷ ks) (retain_family_keys family gs)

  pub Distinct-filter :
      (family : Option Family) (gs : EndpointCandidateGroups keys transport Source)
      → Distinct keys.key_eq (group_keys keys gs)
      → Distinct keys.key_eq
          (group_keys keys (filter_endpoint_candidate_groups keys transport gs family))
  unfolding filter_endpoint_candidate_groups
  Distinct-filter none gs h = h
  Distinct-filter (some family) gs h =
      Distinct-map-retain keys.key_eq (λ (k, tagged). k) _ (retain_family keys transport family gs)
        (rw (retain_family_keys family gs) h)

module _ (keys : ChainKeys) {A : Type 0} where
  pub All-select :
      (P : keys.Key × A → Type 0) (query : SequenceQuery) (gs : List (keys.Key × A))
      → All P gs
      → All P (select_group_pairs keys gs query)
  unfolding select_group_pairs
  All-select P default gs h = All-take P 3 gs h
  All-select P (exact s) gs h = All-retain P _ gs h
  All-select P (limit count) gs h = All-take P count gs h
  All-select P all gs h = h

  pub Distinct-select :
      (query : SequenceQuery) (gs : List (keys.Key × A))
      → Distinct keys.key_eq (map (λ (k, a). k) gs)
      → Distinct keys.key_eq (map (λ (k, a). k) (select_group_pairs keys gs query))
  unfolding select_group_pairs
  Distinct-select default gs h = Distinct-map-take keys.key_eq (λ (k, a). k) 3 gs h
  Distinct-select (exact s) gs h = Distinct-map-retain keys.key_eq (λ (k, a). k) _ gs h
  Distinct-select (limit count) gs h = Distinct-map-take keys.key_eq (λ (k, a). k) count gs h
  Distinct-select all gs h = h
