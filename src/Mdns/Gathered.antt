-- ===== src/Mdns/Gathered.antt =====
-- The candidates of several resolvers, whatever the order in which they answer.
use ddns.Prelude.{
  ◌≡◌, refl, sym, subst, if◌then◌else◌, ◌∙◌, false, ◌||◌, Bool-cases, inl, inr, arith, Eq,
}
use ddns.Prelude.{List, [], ◌∷◌, map, retain, All, Option, none, some}
use mathlib.Core.List.{Permᴰ}
use ddns.Candidates.Defs.{ChainKeys, Transport}
use ddns.Candidates.Lookup.{Family, EndpointLookup, is_empty}
use ddns.Mdns.Groups.{
  EndpointCandidateGroup, merge_groups, LookupResult, found, failed, gather, answer, candidates,
  family_allows,
}
use ddns.Mdns.Merge.{
  holds, result_holds, any_holds, IsUnrepeated, holds-merge_groups, IsMerged, merge_groups-IsMerged,
}

module _ (keys : ChainKeys) (transport : Transport) {Source : Type 0} (source_eq : Eq Source)
    {Error : Type 0} where
  abbrev pub ResultUnrepeated :
      LookupResult (EndpointCandidateGroup keys.Key transport.Addr Source) Error → Type 0
  ResultUnrepeated (found gs) = All (IsUnrepeated keys transport source_eq) gs
  ResultUnrepeated (failed error) = Unit {0}

  holds-gather :
      (gs : List (EndpointCandidateGroup keys.Key transport.Addr Source)) (last : Option Error)
      (rs : List (LookupResult (EndpointCandidateGroup keys.Key transport.Addr Source) Error))
      (k : keys.Key) (e : transport.Addr)
      → holds keys transport (gather keys transport source_eq gs last rs).0 k e
        ≡ holds keys transport gs k e || any_holds keys transport rs k e
  unfolding gather
  holds-gather gs last [] k e = ground arith
  holds-gather gs last (found cs ∷ rs) k e =
      holds-gather (merge_groups keys transport source_eq gs cs) last rs k e
      ∙ rw (holds-merge_groups keys transport source_eq gs cs k e) (ground arith)
  holds-gather gs last (failed error ∷ rs) k e = holds-gather gs (some error) rs k e

  gather-IsMerged :
      (gs : List (EndpointCandidateGroup keys.Key transport.Addr Source)) (last : Option Error)
      (rs : List (LookupResult (EndpointCandidateGroup keys.Key transport.Addr Source) Error))
      → IsMerged keys transport source_eq gs
      → All ResultUnrepeated rs
      → IsMerged keys transport source_eq (gather keys transport source_eq gs last rs).0
  unfolding gather
  gather-IsMerged gs last [] h us = h
  gather-IsMerged gs last (found cs ∷ rs) h (u, us) =
      gather-IsMerged (merge_groups keys transport source_eq gs cs) last rs
        (merge_groups-IsMerged keys transport source_eq gs cs h u) us
  gather-IsMerged gs last (failed error ∷ rs) h (u, us) = gather-IsMerged gs (some error) rs h us

  result_holds-answer :
      (no_record : Error) (last : Option Error)
      (gs : List (EndpointCandidateGroup keys.Key transport.Addr Source)) (k : keys.Key)
      (e : transport.Addr)
      → result_holds keys transport (answer keys transport source_eq no_record (gs, last)) k e
        ≡ holds keys transport gs k e
  unfolding answer
  result_holds-answer no_record none [] k e = refl
  result_holds-answer no_record (some error) [] k e = refl
  result_holds-answer no_record last (g ∷ gs) k e = refl

  abbrev pub ResultMerged :
      LookupResult (EndpointCandidateGroup keys.Key transport.Addr Source) Error → Type 0
  ResultMerged (found gs) = IsMerged keys transport source_eq gs × (is_empty gs ≡ false)
  ResultMerged (failed error) = Unit {0}

  answer-ResultMerged :
      (no_record : Error) (last : Option Error)
      (gs : List (EndpointCandidateGroup keys.Key transport.Addr Source))
      → IsMerged keys transport source_eq gs
      → ResultMerged (answer keys transport source_eq no_record (gs, last))
  unfolding answer
  answer-ResultMerged no_record none [] h = tt
  answer-ResultMerged no_record (some error) [] h = tt
  answer-ResultMerged no_record last (g ∷ gs) h = (h, refl)

  any_holds-Permᴰ :
      {rs qs : List (LookupResult (EndpointCandidateGroup keys.Key transport.Addr Source) Error)}
      (k : keys.Key) (e : transport.Addr)
      → Permᴰ rs qs
      → any_holds keys transport rs k e ≡ any_holds keys transport qs k e
  any_holds-Permᴰ k e Permᴰ.nil = refl
  any_holds-Permᴰ k e (Permᴰ.cons same d) = rw (same, any_holds-Permᴰ k e d)
  any_holds-Permᴰ k e (Permᴰ.swap same also) = rw (same, also) (ground arith)
  any_holds-Permᴰ k e (Permᴰ.trans d d') = any_holds-Permᴰ k e d ∙ any_holds-Permᴰ k e d'

  all-Permᴰ :
      (P : LookupResult (EndpointCandidateGroup keys.Key transport.Addr Source) Error → Type 0)
      {rs qs : List (LookupResult (EndpointCandidateGroup keys.Key transport.Addr Source) Error)}
      → Permᴰ rs qs
      → All P rs
      → All P qs
  all-Permᴰ P Permᴰ.nil h = h
  all-Permᴰ P (Permᴰ.cons same d) (h, hs) = (subst P same h, all-Permᴰ P d hs)
  all-Permᴰ P (Permᴰ.swap same also) (h, (k, hs)) = (subst P also k, (subst P same h, hs))
  all-Permᴰ P (Permᴰ.trans d d') h = all-Permᴰ P d' (all-Permᴰ P d h)

  abbrev pub HasGroup :
      LookupResult (EndpointCandidateGroup keys.Key transport.Addr Source) Error → Type 0
  HasGroup (found gs) = is_empty gs ≡ false
  HasGroup (failed error) = Unit {0}

  answer-HasGroup :
      (no_record : Error)
      (gathered : List (EndpointCandidateGroup keys.Key transport.Addr Source) × Option Error)
      → HasGroup (answer keys transport source_eq no_record gathered)
  unfolding answer
  answer-HasGroup no_record ([], none) = tt
  answer-HasGroup no_record ([], some error) = tt
  answer-HasGroup no_record (g ∷ gs, last) = refl

  -- In whatever order the lookups end: the answer has an endpoint in a group of a certificate chain just
  -- when some resolver of the family that the lookup allows found it so, and it never is an empty list of
  -- groups.
  pub candidates-outcome :
      {Resolver : Type 0} (family : Resolver → Family)
      (ask : Resolver → LookupResult (EndpointCandidateGroup keys.Key transport.Addr Source) Error)
      (complete : List (LookupResult (EndpointCandidateGroup keys.Key transport.Addr Source) Error)
        → List (LookupResult (EndpointCandidateGroup keys.Key transport.Addr Source) Error))
      → ((rs : List (LookupResult (EndpointCandidateGroup keys.Key transport.Addr Source) Error))
          → Permᴰ rs (complete rs))
      → (no_resolvers no_record : Error) (snapshot : List Resolver) (lookup : EndpointLookup)
      → ((k : keys.Key) (e : transport.Addr)
          → result_holds keys transport
              (candidates keys transport source_eq family ask complete no_resolvers no_record
                snapshot lookup)
              k
              e
            ≡ any_holds keys transport
                (map ask (retain (λ r. family_allows lookup.family (family r)) snapshot))
                k
                e)
        × HasGroup (
            candidates keys transport source_eq family ask complete no_resolvers no_record snapshot
              lookup)
  unfolding candidates
  candidates-outcome family ask complete permuted no_resolvers no_record snapshot lookup =
      elim (retain (λ r. family_allows lookup.family (family r)) snapshot)
        as (λ rs.
          ((k : keys.Key) (e : transport.Addr)
            → result_holds keys transport
                (if is_empty rs
                  then failed no_resolvers
                  else answer keys transport source_eq no_record
                      (gather keys transport source_eq [] none (complete (map ask rs))))
                k e
              ≡ any_holds keys transport (map ask rs) k e)
          × HasGroup (
              if is_empty rs
              then failed no_resolvers
              else answer keys transport source_eq no_record
                  (gather keys transport source_eq [] none (complete (map ask rs))))) [
                    | [] ↦ (λ k e. refl, tt)
                    | r ∷ rs ↦
                        let results = complete (map ask (r ∷ rs)) in
                        let gathered = gather keys transport source_eq [] none results in
                        (
                          λ k e.
                              result_holds-answer no_record gathered.1 gathered.0 k e
                              ∙ holds-gather [] none results k e
                              ∙ sym (any_holds-Permᴰ k e (permuted (map ask (r ∷ rs)))),
                          answer-HasGroup no_record gathered,
                        )
                  ]

  -- In whatever order the lookups end, when no group that a resolver of the allowed family found has an
  -- endpoint or a source twice.
  pub candidates-ResultMerged :
      {Resolver : Type 0} (family : Resolver → Family)
      (ask : Resolver → LookupResult (EndpointCandidateGroup keys.Key transport.Addr Source) Error)
      (complete : List (LookupResult (EndpointCandidateGroup keys.Key transport.Addr Source) Error)
        → List (LookupResult (EndpointCandidateGroup keys.Key transport.Addr Source) Error))
      → ((rs : List (LookupResult (EndpointCandidateGroup keys.Key transport.Addr Source) Error))
          → Permᴰ rs (complete rs))
      → (no_resolvers no_record : Error) (snapshot : List Resolver) (lookup : EndpointLookup)
      → All ResultUnrepeated
          (map ask (retain (λ r. family_allows lookup.family (family r)) snapshot))
      → ResultMerged (
          candidates keys transport source_eq family ask complete no_resolvers no_record snapshot
            lookup)
  unfolding candidates
  candidates-ResultMerged family ask complete permuted no_resolvers no_record snapshot lookup
        sound =
      let asked = retain (λ r. family_allows lookup.family (family r)) snapshot in
      let gathered = gather keys transport source_eq [] none (complete (map ask asked)) in
      let merged : ResultMerged (answer keys transport source_eq no_record gathered) =
        answer-ResultMerged no_record gathered.1 gathered.0 (
          gather-IsMerged [] none (complete (map ask asked))
            (record { one_each = tt; unrepeated = tt })
            (all-Permᴰ ResultUnrepeated (permuted (map ask asked)) sound)) in
      elim (Bool-cases (is_empty asked)) [ inl e ↦ rw e tt | inr e ↦ rw e merged ]
