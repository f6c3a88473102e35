-- ===== src/Mdns/Composed.antt =====
-- The candidates of several resolvers that look a name up as `MdnsResolver` does.
use ddns.Prelude.{ℕ, List, retain, All-map, All-mono, All-always, Option, Eq}
use mathlib.Core.List.{Permᴰ}
use ddns.Endpoint.Defs.{EndpointAddr}
use ddns.Candidates.Defs.{ChainKeys, Transport}
use ddns.Candidates.Lookup.{Family, EndpointLookup}
use ddns.Mdns.Groups.{
  EndpointCandidateGroup, LookupResult, found, failed, lookup_endpoint_candidates, candidates,
  family_allows, exact_override,
}
use ddns.Mdns.Bounds.{IsCandidateGroup, candidate_groups-IsCandidateGroup}
use ddns.Mdns.Merge.{IsUnrepeated}
use ddns.Mdns.Gathered.{ResultUnrepeated, ResultMerged, candidates-ResultMerged}

module _ (keys : ChainKeys) (transport : Transport) {Source : Type 0} (source_eq : Eq Source)
    {Error : Type 0} where
  lookup-ResultUnrepeated :
      (source : Source) (sequence : Option ℕ) (answer : LookupResult EndpointAddr Error)
      (lookup : EndpointLookup)
      → ResultUnrepeated keys transport source_eq
          (lookup_endpoint_candidates keys transport source_eq source sequence answer lookup)
  unfolding lookup_endpoint_candidates
  lookup-ResultUnrepeated source sequence (failed error) lookup = tt
  lookup-ResultUnrepeated source sequence (found records) lookup =
      All-mono (IsCandidateGroup keys transport source_eq (exact_override lookup sequence))
        (IsUnrepeated keys transport source_eq) (λ g h. (h.endpoints_distinct, h.sources_distinct))
        _
        (candidate_groups-IsCandidateGroup keys transport source_eq _
          (exact_override lookup sequence)).0

  -- In whatever order the lookups end, and whatever the queries of the resolvers answer: the candidates
  -- that are found for a name are not empty, no two of their groups are of one certificate chain, and no
  -- group has an endpoint or a source twice.
  pub candidates-lookup_endpoint_candidates :
      {Resolver : Type 0} (family : Resolver → Family) (source : Resolver → Source)
      (query : Resolver → LookupResult EndpointAddr Error) (sequence : Option ℕ)
      (complete : List (LookupResult (EndpointCandidateGroup keys.Key transport.Addr Source) Error)
        → List (LookupResult (EndpointCandidateGroup keys.Key transport.Addr Source) Error))
      → ((rs : List (LookupResult (EndpointCandidateGroup keys.Key transport.Addr Source) Error))
          → Permᴰ rs (complete rs))
      → (no_resolvers no_record : Error) (snapshot : List Resolver) (lookup : EndpointLookup)
      → ResultMerged keys transport source_eq (
          candidates keys transport source_eq family
            (λ r.
              lookup_endpoint_candidates keys transport source_eq
                (source r)
                sequence
                (query r)
                lookup)
            complete
            no_resolvers
            no_record
            snapshot
            lookup)
  candidates-lookup_endpoint_candidates {Resolver} family source query sequence complete permuted
        no_resolvers no_record snapshot lookup =
      let ask = λ (r : Resolver).
        lookup_endpoint_candidates keys transport source_eq (source r) sequence (query r) lookup in
      let asked = retain (λ (r : Resolver). family_allows lookup.family (family r)) snapshot in
      candidates-ResultMerged keys transport source_eq family ask complete permuted no_resolvers
        no_record snapshot lookup
        (All-map (ResultUnrepeated keys transport source_eq) ask asked (
          All-always (λ r. ResultUnrepeated keys transport source_eq (ask r))
            (λ r. lookup-ResultUnrepeated (source r) sequence (query r) lookup) asked))
