-- ===== src/Candidates/Lookup.antt =====
-- src/resolvers/endpoint_candidates.rs: what a lookup asks for, and the two filters on the groups. A
-- `NonZeroUsize` is its number.
use ddns.Prelude.{ℕ, Bool, true, false, not, List, [], ◌∷◌, take, retain, Option, none, some, ◌==◌}
use ddns.Endpoint.Defs.{SocketAddr, v4, v6}
use ddns.Candidates.Defs.{ChainKeys, Transport, EndpointCandidateGroups}

-- `qresolve::Family`
pub data Family : Type 0 where
  family_v4 : Family
  family_v6 : Family

pub data SequenceQuery : Type 0 where
  default : SequenceQuery
  exact : ℕ → SequenceQuery
  limit : ℕ → SequenceQuery
  all : SequenceQuery

pub record EndpointLookup : Type 0 where
  pub sequences : SequenceQuery
  pub record_limit : Option ℕ
  pub family : Option Family

abbrev asking : SequenceQuery → EndpointLookup
asking sequences = record { sequences = sequences; record_limit = none; family = none }

-- The constructor functions `exact`, `limit` and `all`.
unfoldable pub exact_lookup : ℕ → EndpointLookup
exact_lookup sequence = asking (exact sequence)

unfoldable pub limit_lookup : ℕ → EndpointLookup
limit_lookup count = asking (limit count)

unfoldable pub all_lookup : EndpointLookup
all_lookup = asking all

unfoldable pub with_record_limit : EndpointLookup → ℕ → EndpointLookup
with_record_limit lookup count = record lookup { record_limit = some count }

unfoldable pub with_family : EndpointLookup → Option Family → EndpointLookup
with_family lookup family = record lookup { family = family }

abbrev is_ipv4 : SocketAddr → Bool
is_ipv4 (v4 ip port) = true
is_ipv4 (v6 ip port flow scope) = false

module _ (transport : Transport) where
  unfoldable pub endpoint_matches_family : transport.Addr → Option Family → Bool
  endpoint_matches_family endpoint none = true
  endpoint_matches_family endpoint (some family_v4) = is_ipv4 (transport.addr endpoint)
  endpoint_matches_family endpoint (some family_v6) = not (is_ipv4 (transport.addr endpoint))

abbrev pub is_empty {ℓ} : {A : Type ℓ} → List A → Bool
is_empty [] = true
is_empty (x ∷ xs) = false

module _ (keys : ChainKeys) (transport : Transport) {T : Type 0} where
  abbrev pub retain_family :
      Family → EndpointCandidateGroups keys transport T → EndpointCandidateGroups keys transport T
  retain_family family [] = []
  retain_family family ((key, endpoints) ∷ groups) =
      (
        key,
        retain (λ (tag, endpoint). endpoint_matches_family transport endpoint (some family))
            endpoints,
      )
      ∷ retain_family family groups

  unfoldable pub filter_endpoint_candidate_groups :
      EndpointCandidateGroups keys transport T
      → Option Family
      → EndpointCandidateGroups keys transport T
  filter_endpoint_candidate_groups groups none = groups
  filter_endpoint_candidate_groups groups (some family) =
      retain (λ (key, endpoints). not (is_empty endpoints)) (retain_family family groups)

module _ (keys : ChainKeys) {A : Type 0} where
  unfoldable pub select_group_pairs : List (keys.Key × A) → SequenceQuery → List (keys.Key × A)
  select_group_pairs groups default = take 3 groups
  select_group_pairs groups (exact s) = retain (λ (chain, g). keys.sequence chain == s) groups
  select_group_pairs groups (limit count) = take count groups
  select_group_pairs groups all = groups
