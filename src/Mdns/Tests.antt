-- ===== src/Mdns/Tests.antt =====
-- Runs of the candidates of the resolvers, and the theorems at concrete inputs.
use mathlib.Core.List.Permᴰ
use ddns.Prelude.{ℕ, zero, suc, ◌≡◌, arith, List, [], ◌∷◌, map, retain, nat_eq, some}
use ddns.Candidates.Defs.{TaggedEndpointCandidate}
use ddns.Candidates.Examples.{simple_keys, simple_transport, candidate}
use ddns.Candidates.Lookup.{EndpointLookup, family_v4, limit}
use ddns.Mdns.Groups.{
  EndpointCandidateGroup, candidate_groups, LookupResult, found, failed, candidates, family_allows,
  lookup_endpoint_candidates,
}
use ddns.Mdns.Merge.{result_holds, any_holds}
use ddns.Mdns.Gathered.{ResultMerged, HasGroup, candidates-outcome}
use ddns.Endpoint.Defs.{EndpointAddr}
use ddns.Candidates.Reference.{reference, admitted}
use ddns.Mdns.Described.{described, chosen, has_members}
use ddns.Mdns.Exact.{candidate_groups-reference}
use ddns.Mdns.Composed.{candidates-lookup_endpoint_candidates}

abbrev three : List (TaggedEndpointCandidate (ℕ × ℕ) ℕ)
three = candidate 1 53 2 ∷ candidate 1 53 2 ∷ candidate 2 54 2 ∷ candidate 2 54 0 ∷ []

abbrev one_v4 : EndpointLookup
one_v4 = record { sequences = limit 1; record_limit = some 1; family = some family_v4 }

candidate_groups-reference_example :
    candidate_groups simple_keys simple_transport nat_eq three one_v4
    ≡ chosen simple_keys simple_transport nat_eq (limit 1) (
        map (described simple_keys simple_transport nat_eq one_v4) (
          retain
            (has_members simple_keys simple_transport nat_eq (some family_v4))
            (reference simple_keys (admitted simple_keys simple_transport three))))
candidate_groups-reference_example =
    candidate_groups-reference simple_keys simple_transport nat_eq three one_v4 (omega arith)

-- Resolvers are numbers: 0 fails, the others find one endpoint from themselves.
abbrev ask : ℕ → LookupResult (EndpointCandidateGroup (ℕ × ℕ) (ℕ × (ℕ × ℕ)) ℕ) ℕ
ask zero = failed 7
ask (suc n) =
    found (record { chain = (0, 0x30); endpoints = (4, (1, 53)) ∷ []; sources = n ∷ [] } ∷ [])

candidates-outcome_example :
    ((k : ℕ × ℕ) (e : ℕ × (ℕ × ℕ))
      → result_holds simple_keys simple_transport
          (candidates simple_keys simple_transport nat_eq
            (λ n. family_v4)
            ask
            (λ rs. rs)
            8
            9
            (0 ∷ 1 ∷ 2 ∷ [])
            one_v4)
          k
          e
        ≡ any_holds simple_keys simple_transport
            (map ask (retain (λ n. family_allows (some family_v4) family_v4) (0 ∷ 1 ∷ 2 ∷ [])))
            k
            e)
    × HasGroup simple_keys simple_transport nat_eq (
        candidates simple_keys simple_transport nat_eq
          (λ n. family_v4)
          ask
          (λ rs. rs)
          8
          9
          (0 ∷ 1 ∷ 2 ∷ [])
          one_v4)
candidates-outcome_example =
    candidates-outcome simple_keys simple_transport nat_eq (λ n. family_v4) ask (λ rs. rs)
      (λ rs. Permᴰ.refl rs) 8 9 (0 ∷ 1 ∷ 2 ∷ []) one_v4

-- The query of the resolver 0 fails, the others find one record twice.
abbrev records_of : ℕ → LookupResult EndpointAddr ℕ
records_of zero = failed 7
records_of (suc n) = let r = candidate n 53 2 in found (r.dns_record ∷ r.dns_record ∷ [])

candidates-lookup_endpoint_candidates_example : ResultMerged simple_keys simple_transport nat_eq (
    candidates simple_keys simple_transport nat_eq
      (λ n. family_v4)
      (λ n.
        lookup_endpoint_candidates simple_keys simple_transport nat_eq n
          (some 2)
          (records_of n)
          one_v4)
      (λ rs. rs)
      8
      9
      (0 ∷ 1 ∷ 2 ∷ [])
      one_v4)
candidates-lookup_endpoint_candidates_example =
    candidates-lookup_endpoint_candidates simple_keys simple_transport nat_eq (λ n. family_v4)
      (λ n. n) records_of (some 2) (λ rs. rs) (λ rs. Permᴰ.refl rs) 8 9 (0 ∷ 1 ∷ 2 ∷ []) one_v4
