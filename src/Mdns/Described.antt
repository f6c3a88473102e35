-- ===== src/Mdns/Described.antt =====
-- The groups of candidates, said without the loops that make them.
use ddns.Prelude.{
  Bool, ℕ, zero, suc, ◌≡◌, refl, sym, ap, ◌∙◌, true, false, not, ltb, Bool-cases, inl, inr, arith,
  Eq, contains, ◌==◌,
}
use ddns.Prelude.{
  List, [], ◌∷◌, ◌++◌, map, length, take, retain, All, All-take, All-retain, Option, if◌then◌else◌,
}
use ddns.Candidates.Defs.{ChainKeys, Transport, EndpointCandidateGroups}
use ddns.Candidates.Reference.{add_key}
use ddns.Candidates.Lookup.{
  EndpointLookup, Family, SequenceQuery, default, exact, limit, all, endpoint_matches_family,
  select_group_pairs, is_empty,
}
use ddns.Mdns.Groups.{
  EndpointCandidateGroup, limit_or_max, push_source, push_limited, collect, group_of,
}

-- Each thing once, in the order in which they come first, behind those that are there.
module _ {A : Type 0} (eq : Eq A) where
  abbrev pub first_of_each : List A → List A → List A
  first_of_each seen [] = seen
  first_of_each seen (x ∷ xs) = first_of_each (add_key eq seen x) xs

  add_key_nonempty : (x y : A) (xs : List A) → is_empty (add_key eq (x ∷ xs) y) ≡ false
  add_key_nonempty x y xs = elim (Bool-cases (contains eq (x ∷ xs) y)) [
    | inl e ↦ rw e
    | inr e ↦ rw e
  ]

  pub first_nonempty :
      (seen xs : List A) → is_empty seen ≡ false → is_empty (first_of_each seen xs) ≡ false
  first_nonempty seen [] h = h
  first_nonempty [] (x ∷ xs) h = cc
  first_nonempty (s ∷ seen) (x ∷ xs) h =
      first_nonempty (add_key eq (s ∷ seen) x) xs (add_key_nonempty s x seen)

  contains-take :
      (n : ℕ) (xs : List A) (a : A) → contains eq xs a ≡ false → contains eq (take n xs) a ≡ false
  contains-take zero xs a h = refl
  contains-take (suc n) [] a h = refl
  contains-take (suc n) (x ∷ xs) a h = ground (arith, contains-take n xs a)

  -- What is not in the first part though it is in the list is behind a part that is full.
  take_full :
      (n : ℕ) (xs : List A) (a : A)
      → contains eq xs a ≡ true
      → contains eq (take n xs) a ≡ false
      → ltb (length (take n xs)) n ≡ false
  take_full zero xs a h k = refl
  take_full (suc n) [] a h k = cc
  take_full (suc n) (x ∷ xs) a h k = ground (arith, take_full n xs a)

  take_none : (n : ℕ) → take {A = A} n [] ≡ []
  take_none zero = refl
  take_none (suc n) = refl

  take_snoc :
      (n : ℕ) (xs : List A) (a : A)
      → take n (xs ++ (a ∷ []))
        ≡ (if ltb (length (take n xs)) n then take n xs ++ (a ∷ []) else take n xs)
  take_snoc zero xs a = refl
  take_snoc (suc n) [] a =
      let room : ltb 0 (suc n) ≡ true = ground arith in rw room (ap (λ xs. a ∷ xs) (take_none n))
  take_snoc (suc n) (x ∷ xs) a = elim (Bool-cases (ltb (length (take n xs)) n)) [
    | inl room ↦
        let still : ltb (suc (length (take n xs))) (suc n) ≡ true = ground arith in
        rw (still, take_snoc n xs a, room)
    | inr full ↦
        let still : ltb (suc (length (take n xs))) (suc n) ≡ false = ground arith in
        rw (still, take_snoc n xs a, full)
  ]

module _ (keys : ChainKeys) (transport : Transport) {Source : Type 0} (source_eq : Eq Source) where
  push_source-add_key :
      (sources : List Source) (source : Source)
      → push_source keys transport source_eq sources source ≡ add_key source_eq sources source
  unfolding push_source
  push_source-add_key sources source = elim (Bool-cases (contains source_eq sources source)) [
    | inl e ↦ rw (e)
    | inr e ↦ rw (e)
  ]

  -- The endpoints so far are the first ones of all that came.
  push_limited-add_key :
      (count : ℕ) (came : List transport.Addr) (endpoint : transport.Addr)
      → push_limited keys transport source_eq count (take count came) endpoint
        ≡ take count (add_key transport.addr_eq came endpoint)
  unfolding push_limited
  push_limited-add_key count came endpoint =
      elim (Bool-cases (contains transport.addr_eq came endpoint)) [
        | inl old ↦ elim (Bool-cases (contains transport.addr_eq (take count came) endpoint)) [
          | inl e ↦ rw (e, old)
          | inr e ↦ rw (e, old, take_full transport.addr_eq count came endpoint old e)
        ]
        | inr new ↦
            rw (contains-take transport.addr_eq count came endpoint new, new)
              (sym (take_snoc transport.addr_eq count came endpoint))
      ]

  collect-first_of_each :
      (count : ℕ) (tagged : List (Source × transport.Addr)) (sources : List Source)
      (came : List transport.Addr)
      → collect keys transport source_eq count tagged sources (take count came) ≡ (
        first_of_each source_eq sources (map (λ (source, e). source) tagged),
        take count (first_of_each transport.addr_eq came (map (λ (source, e). e) tagged)),
      )
  unfolding collect
  collect-first_of_each count [] sources came = refl
  collect-first_of_each count ((source, e) ∷ tagged) sources came =
      rw (push_source-add_key sources source, push_limited-add_key count came e)
        (collect-first_of_each count tagged (add_key source_eq sources source)
          (add_key transport.addr_eq came e))

  -- The members of a group that a lookup for a family wants.
  abbrev pub members :
      Option Family → List (Source × transport.Addr) → List (Source × transport.Addr)
  members family tagged = retain (λ (source, e). endpoint_matches_family transport e family) tagged

  -- The group of candidates for a group of endpoints: its sources and its endpoints, each once and in the
  -- order in which they come first, no more endpoints than the record limit.
  abbrev pub described :
      EndpointLookup
      → keys.Key × List (Source × transport.Addr)
      → EndpointCandidateGroup keys.Key transport.Addr Source
  described lookup (chain, tagged) = record {
    chain = chain;
    endpoints = take (limit_or_max lookup.record_limit) (
        first_of_each transport.addr_eq [] (map (λ (source, e). e) (members lookup.family tagged)));
    sources =
        first_of_each source_eq [] (map (λ (source, e). source) (members lookup.family tagged));
  }

  abbrev pub has_members : Option Family → keys.Key × List (Source × transport.Addr) → Bool
  has_members family (chain, tagged) = not (is_empty (members family tagged))

  -- What a query leaves of the groups.
  abbrev pub chosen :
      SequenceQuery
      → List (EndpointCandidateGroup keys.Key transport.Addr Source)
      → List (EndpointCandidateGroup keys.Key transport.Addr Source)
  chosen default gs = take 3 gs
  chosen (exact s) gs = retain (λ g. keys.sequence g.chain == s) gs
  chosen (limit count) gs = take count gs
  chosen all gs = gs

  pub group_of-described :
      (lookup : EndpointLookup) (chain : keys.Key) (tagged : List (Source × transport.Addr))
      → group_of keys transport source_eq lookup (chain, members lookup.family tagged)
        ≡ described lookup (chain, tagged)
  unfolding group_of
  group_of-described lookup chain tagged =
      let count = limit_or_max lookup.record_limit in
      ap
        (λ (sources, endpoints). record { chain = chain; endpoints = endpoints; sources = sources })
        (ap (collect keys transport source_eq count (members lookup.family tagged) [])
            (sym (take_none transport.addr_eq count))
          ∙ collect-first_of_each count (members lookup.family tagged) [] [])

  pub All-chosen :
      (P : EndpointCandidateGroup keys.Key transport.Addr Source → Type 0) (query : SequenceQuery)
      (gs : List (EndpointCandidateGroup keys.Key transport.Addr Source))
      → All P gs
      → All P (chosen query gs)
  All-chosen P default gs h = All-take P 3 gs h
  All-chosen P (exact s) gs h = All-retain P _ gs h
  All-chosen P (limit count) gs h = All-take P count gs h
  All-chosen P all gs h = h

  map-take :
      (lookup : EndpointLookup) (n : ℕ) (gs : EndpointCandidateGroups keys transport Source)
      → map (group_of keys transport source_eq lookup) (take n gs)
        ≡ take n (map (group_of keys transport source_eq lookup) gs)
  map-take lookup zero gs = refl
  map-take lookup (suc n) [] = refl
  map-take lookup (suc n) (g ∷ gs) =
      ap (λ hs. group_of keys transport source_eq lookup g ∷ hs) (map-take lookup n gs)

  map-of_sequence :
      (lookup : EndpointLookup) (s : ℕ) (gs : EndpointCandidateGroups keys transport Source)
      → map
          (group_of keys transport source_eq lookup)
          (retain (λ (chain, g). keys.sequence chain == s) gs)
        ≡ retain
            (λ g. keys.sequence g.chain == s)
            (map (group_of keys transport source_eq lookup) gs)
  unfolding group_of
  map-of_sequence lookup s [] = refl
  map-of_sequence lookup s ((chain, tagged) ∷ gs) = elim (Bool-cases (keys.sequence chain == s)) [
    | inl e ↦ rw (e, map-of_sequence lookup s gs)
    | inr e ↦ rw (e, map-of_sequence lookup s gs)
  ]

  pub map-select :
      (lookup : EndpointLookup) (query : SequenceQuery)
      (gs : EndpointCandidateGroups keys transport Source)
      → map (group_of keys transport source_eq lookup) (select_group_pairs keys gs query)
        ≡ chosen query (map (group_of keys transport source_eq lookup) gs)
  unfolding select_group_pairs
  map-select lookup default gs = map-take lookup 3 gs
  map-select lookup (exact s) gs = map-of_sequence lookup s gs
  map-select lookup (limit count) gs = map-take lookup count gs
  map-select lookup all gs = refl
