-- ===== src/Mdns/Groups.antt =====
-- The candidates that a resolver returns, and how those of several resolvers are merged. The type of a
-- source is a parameter with its equality.
use ddns.Prelude.{
  ℕ, ◌-◌, ◌^◌, Bool, true, false, not, ◌&&◌, ltb, Eq, contains, List, [], ◌∷◌, ◌++◌, map, length,
  retain,
}
use ddns.Prelude.{Option, none, some, if◌then◌else◌}
use ddns.Endpoint.Defs.{EndpointAddr}
use ddns.Candidates.Defs.{
  ChainKeys, Transport, TaggedEndpointCandidate, grouped_endpoint_candidates,
}
use ddns.Candidates.Lookup.{
  EndpointLookup, Family, family_v4, family_v6, exact_lookup, with_record_limit, with_family,
  filter_endpoint_candidate_groups, select_group_pairs, is_empty,
}

pub record EndpointCandidateGroup (Key Addr Source : Type 0) : Type 0 where
  pub chain : Key
  pub endpoints : List Addr
  pub sources : List Source

unfoldable pub exact_override : EndpointLookup → Option ℕ → EndpointLookup
exact_override lookup none = lookup
exact_override lookup (some sequence) =
    let exact = with_family (exact_lookup sequence) lookup.family in
    elim lookup.record_limit [ some count ↦ with_record_limit exact count | none ↦ exact ]

-- `map_or(usize::MAX, |limit| limit.get())`, on 64 bits
abbrev pub limit_or_max : Option ℕ → ℕ
limit_or_max (some count) = count
limit_or_max none = 2 ^ 64 - 1

module _ (keys : ChainKeys) (transport : Transport) {Source : Type 0} (source_eq : Eq Source) where
  abbrev pub Group : Type 0
  Group = EndpointCandidateGroup keys.Key transport.Addr Source

  unfoldable pub push_source : List Source → Source → List Source
  push_source sources source =
      if not (contains source_eq sources source) then sources ++ (source ∷ []) else sources

  unfoldable pub push_limited : ℕ → List transport.Addr → transport.Addr → List transport.Addr
  push_limited count endpoints endpoint =
      if not (contains transport.addr_eq endpoints endpoint) && ltb (length endpoints) count
      then endpoints ++ (endpoint ∷ [])
      else endpoints

  -- The loop over the endpoints of a group: sources and endpoints once each, endpoints up to the limit.
  unfoldable pub collect :
      ℕ
      → List (Source × transport.Addr)
      → List Source
      → List transport.Addr
      → List Source × List transport.Addr
  collect count [] sources endpoints = (sources, endpoints)
  collect count ((source, endpoint) ∷ tagged) sources endpoints =
      collect count tagged (push_source sources source) (push_limited count endpoints endpoint)

  unfoldable pub group_of : EndpointLookup → keys.Key × List (Source × transport.Addr) → Group
  group_of lookup (chain, tagged) =
      let (sources, endpoints) = collect (limit_or_max lookup.record_limit) tagged [] [] in
      record { chain = chain; endpoints = endpoints; sources = sources }

  unfoldable pub candidate_groups :
      List (TaggedEndpointCandidate keys.Key Source) → EndpointLookup → List Group
  candidate_groups records lookup =
      retain (λ group. not (is_empty group.endpoints))
        (map (group_of lookup) (
          select_group_pairs keys
            (filter_endpoint_candidate_groups keys transport
              (grouped_endpoint_candidates keys transport records) lookup.family)
            lookup.sequences))

  -- What is new in a group joins the first group with its chain; a group with a new chain is added.
  unfoldable pub merge_group : List Group → Group → List Group
  merge_group [] group = group ∷ []
  merge_group (existing ∷ target) group =
      let rest = merge_group target group in
      if keys.key_eq.beq existing.chain group.chain
      then record existing {
        endpoints =
            existing.endpoints
            ++ retain (λ endpoint. not (contains transport.addr_eq existing.endpoints endpoint))
                group.endpoints;
        sources =
            existing.sources
            ++ retain (λ source. not (contains source_eq existing.sources source)) group.sources;
      }
        ∷ target
      else existing ∷ rest

  unfoldable pub merge_groups : List Group → List Group → List Group
  merge_groups target [] = target
  merge_groups target (group ∷ groups) = merge_groups (merge_group target group) groups

-- What a resolver answers.
pub data LookupResult (G Error : Type 0) : Type 0 where
  found : List G → LookupResult G Error
  failed : Error → LookupResult G Error

abbrev pub family_eq : Family → Family → Bool
family_eq family_v4 family_v4 = true
family_eq family_v6 family_v6 = true
family_eq _ _ = false

-- `is_none_or(|family| resolver.family() == family)`
abbrev pub family_allows : Option Family → Family → Bool
family_allows none own = true
family_allows (some family) own = family_eq own family

module _ (keys : ChainKeys) (transport : Transport) {Source : Type 0} (source_eq : Eq Source)
    {Error : Type 0} where
  -- The lookup of one resolver behind its name: the sequence of the name, and what the query answers.
  unfoldable pub lookup_endpoint_candidates :
      Source
      → Option ℕ
      → LookupResult EndpointAddr Error
      → EndpointLookup
      → LookupResult (EndpointCandidateGroup keys.Key transport.Addr Source) Error
  lookup_endpoint_candidates source sequence (failed error) lookup = failed error
  lookup_endpoint_candidates source sequence (found records) lookup =
      let tagged =
        map (λ endpoint. record { tag = source; dns_record = endpoint; fallback_chain_key = none })
          records in
      found (candidate_groups keys transport source_eq tagged (exact_override lookup sequence))

  -- The loop over the results in the order in which the lookups end.
  unfoldable pub gather :
      List (EndpointCandidateGroup keys.Key transport.Addr Source)
      → Option Error
      → List (LookupResult (EndpointCandidateGroup keys.Key transport.Addr Source) Error)
      → List (EndpointCandidateGroup keys.Key transport.Addr Source) × Option Error
  gather groups last_error [] = (groups, last_error)
  gather groups last_error (found candidates ∷ results) =
      gather (merge_groups keys transport source_eq groups candidates) last_error results
  gather groups last_error (failed error ∷ results) = gather groups (some error) results

  unfoldable pub answer :
      Error
      → List (EndpointCandidateGroup keys.Key transport.Addr Source) × Option Error
      → LookupResult (EndpointCandidateGroup keys.Key transport.Addr Source) Error
  answer no_record ([], some error) = failed error
  answer no_record ([], none) = failed no_record
  answer no_record (group ∷ groups, last_error) = found (group ∷ groups)

  -- `ask` is the lookup of a resolver, and `complete` puts the results in the order in which they come.
  unfoldable pub candidates :
      {Resolver : Type 0}
      → (Resolver → Family)
      → (Resolver → LookupResult (EndpointCandidateGroup keys.Key transport.Addr Source) Error)
      → (List (LookupResult (EndpointCandidateGroup keys.Key transport.Addr Source) Error)
          → List (LookupResult (EndpointCandidateGroup keys.Key transport.Addr Source) Error))
      → (no_resolvers no_record : Error) → List Resolver
      → EndpointLookup
      → LookupResult (EndpointCandidateGroup keys.Key transport.Addr Source) Error
  candidates family ask complete no_resolvers no_record snapshot lookup =
      let resolvers = retain (λ r. family_allows lookup.family (family r)) snapshot in
      if is_empty resolvers
      then failed no_resolvers
      else answer no_record (gather [] none (complete (map ask resolvers)))
