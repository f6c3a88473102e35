-- ===== src/Mdns/Merge.antt =====
-- The merge of groups of candidates: what the merged groups hold, and what is in them twice.
use ddns.Prelude.{
  ◌≡◌, refl, ap, ◌∙◌, Bool, false, ◌&&◌, ◌||◌, Bool-cases, inl, inr, arith, Eq, contains, Distinct,
  contains-union, Distinct-union,
}
use ddns.Prelude.{List, [], ◌∷◌, map, All}
use ddns.Candidates.Defs.{ChainKeys, Transport}
use ddns.Candidates.Reference.{add_key, Distinct-add_key}
use ddns.Mdns.Groups.{
  EndpointCandidateGroup, merge_group, merge_groups, LookupResult, found, failed,
}

module _ (keys : ChainKeys) (transport : Transport) {Source : Type 0} where
  -- Some group of the chain has the endpoint.
  abbrev pub holds :
      List (EndpointCandidateGroup keys.Key transport.Addr Source)
      → keys.Key
      → transport.Addr
      → Bool
  holds [] k e = false
  holds (g ∷ gs) k e =
      (keys.key_eq.beq g.chain k && contains transport.addr_eq g.endpoints e) || holds gs k e

  abbrev pub result_holds :
      {Error : Type 0}
      → LookupResult (EndpointCandidateGroup keys.Key transport.Addr Source) Error
      → keys.Key
      → transport.Addr
      → Bool
  result_holds (found gs) k e = holds gs k e
  result_holds (failed error) k e = false

  abbrev pub any_holds :
      {Error : Type 0}
      → List (LookupResult (EndpointCandidateGroup keys.Key transport.Addr Source) Error)
      → keys.Key
      → transport.Addr
      → Bool
  any_holds [] k e = false
  any_holds (r ∷ rs) k e = result_holds r k e || any_holds rs k e

module _ (keys : ChainKeys) (transport : Transport) {Source : Type 0} (source_eq : Eq Source) where
  abbrev pub IsUnrepeated : EndpointCandidateGroup keys.Key transport.Addr Source → Type 0
  IsUnrepeated g = Distinct transport.addr_eq g.endpoints × Distinct source_eq g.sources

  holds-merge_group :
      (target : List (EndpointCandidateGroup keys.Key transport.Addr Source))
      (g : EndpointCandidateGroup keys.Key transport.Addr Source) (k : keys.Key)
      (e : transport.Addr)
      → holds keys transport (merge_group keys transport source_eq target g) k e
        ≡ holds keys transport target k e
          || (keys.key_eq.beq g.chain k && contains transport.addr_eq g.endpoints e)
  unfolding merge_group
  holds-merge_group [] g k e = ground arith
  holds-merge_group (x ∷ target) g k e = elim (Bool-cases (keys.key_eq.beq x.chain g.chain)) [
    | inl same ↦
        let one : keys.key_eq.beq x.chain k ≡ keys.key_eq.beq g.chain k =
          ap (λ c. keys.key_eq.beq c k) ((keys.key_eq.beq_iff x.chain g.chain).0 same) in
        rw (same, contains-union transport.addr_eq x.endpoints g.endpoints e, one) (ground arith)
    | inr other ↦ rw (other, holds-merge_group target g k e) (ground arith)
  ]

  pub holds-merge_groups :
      (target gs : List (EndpointCandidateGroup keys.Key transport.Addr Source)) (k : keys.Key)
      (e : transport.Addr)
      → holds keys transport (merge_groups keys transport source_eq target gs) k e
        ≡ holds keys transport target k e || holds keys transport gs k e
  unfolding merge_groups
  holds-merge_groups target [] k e = ground arith
  holds-merge_groups target (g ∷ gs) k e =
      holds-merge_groups (merge_group keys transport source_eq target g) gs k e
      ∙ rw (holds-merge_group target g k e) (ground arith)

  chains-merge_group :
      (target : List (EndpointCandidateGroup keys.Key transport.Addr Source))
      (g : EndpointCandidateGroup keys.Key transport.Addr Source)
      → map (λ x. x.chain) (merge_group keys transport source_eq target g)
        ≡ add_key keys.key_eq (map (λ x. x.chain) target) g.chain
  unfolding merge_group
  chains-merge_group [] g = refl
  chains-merge_group (x ∷ target) g = elim (Bool-cases (keys.key_eq.beq x.chain g.chain)) [
    | inl same ↦ rw same
    | inr other ↦ rw (other, chains-merge_group target g) (ground arith)
  ]

  IsUnrepeated-merge_group :
      (target : List (EndpointCandidateGroup keys.Key transport.Addr Source))
      (g : EndpointCandidateGroup keys.Key transport.Addr Source)
      → All IsUnrepeated target
      → IsUnrepeated g
      → All IsUnrepeated (merge_group keys transport source_eq target g)
  unfolding merge_group
  IsUnrepeated-merge_group [] g h u = (u, tt)
  IsUnrepeated-merge_group (x ∷ target) g (h, hs) u =
      elim (Bool-cases (keys.key_eq.beq x.chain g.chain)) [
        | inl same ↦ rw same (
          (
            Distinct-union transport.addr_eq x.endpoints g.endpoints h.0 u.0,
            Distinct-union source_eq x.sources g.sources h.1 u.1,
          ),
          hs,
        )
        | inr other ↦ rw other (h, IsUnrepeated-merge_group target g hs u)
      ]

  -- No chain has two groups, and no group an endpoint or a source twice.
  pub record IsMerged (gs : List (EndpointCandidateGroup keys.Key transport.Addr Source))
      : Type 0 where
    pub one_each : Distinct keys.key_eq (map (λ g. g.chain) gs)
    pub unrepeated : All IsUnrepeated gs

  pub merge_groups-IsMerged :
      (target gs : List (EndpointCandidateGroup keys.Key transport.Addr Source))
      → IsMerged target
      → All IsUnrepeated gs
      → IsMerged (merge_groups keys transport source_eq target gs)
  unfolding merge_groups
  merge_groups-IsMerged target [] h us = h
  merge_groups-IsMerged target (g ∷ gs) h (u, us) =
      merge_groups-IsMerged (merge_group keys transport source_eq target g) gs
        (record {
          one_each =
              rw (chains-merge_group target g)
                (Distinct-add_key keys.key_eq (map (λ x. x.chain) target) g.chain h.one_each);
          unrepeated = IsUnrepeated-merge_group target g h.unrepeated u;
        })
        us
