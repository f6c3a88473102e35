-- ===== src/Mdns/Exact.antt =====
-- `candidate_groups` against the description.
use ddns.Prelude.{
  ℕ, zero, suc, ◌≡◌, ◌<◌, refl, sym, ap, ◌∙◌, false, not, Bool-cases, inl, inr, arith, Eq, contains,
  beq_refl,
}
use ddns.Prelude.{List, [], ◌∷◌, map, take, retain, All, All-mono, All-snoc, Option, none, some}
use ddns.Candidates.Defs.{ChainKeys, Transport, TaggedEndpointCandidate, EndpointCandidateGroups}
use ddns.Candidates.Reference.{
  add_key, keys_from, with_key, each, reference, admitted, grouped_endpoint_candidates-reference,
}
use ddns.Candidates.Lookup.{
  EndpointLookup, Family, endpoint_matches_family, filter_endpoint_candidate_groups,
  select_group_pairs, is_empty,
}
use ddns.Mdns.Groups.{EndpointCandidateGroup, limit_or_max, group_of, candidate_groups}
use ddns.Mdns.Described.{
  first_of_each, first_nonempty, members, described, has_members, chosen, group_of-described,
  All-chosen, map-select,
}

module _ (keys : ChainKeys) where
  All-add_key :
      (P : keys.Key → Type 0) (ks : List keys.Key) (k : keys.Key)
      → All P ks
      → P k
      → All P (add_key keys.key_eq ks k)
  All-add_key P ks k h p = elim (Bool-cases (contains keys.key_eq ks k)) [
    | inl e ↦ rw e h
    | inr e ↦ rw e (All-snoc P ks k h p)
  ]

-- No group of the reference is empty.
module _ (keys : ChainKeys) {A : Type 0} where
  abbrev Occurs : List (keys.Key × A) → keys.Key → Type 0
  Occurs ps k = is_empty (with_key keys k ps) ≡ false

  Occurs-later :
      (p : keys.Key × A) (ps : List (keys.Key × A)) (k : keys.Key) → Occurs ps k → Occurs (p ∷ ps) k
  Occurs-later (j, a) ps k h = elim (Bool-cases (keys.key_eq.beq k j)) [
    | inl e ↦ rw e
    | inr e ↦ rw e h
  ]

  all_occur : (ps : List (keys.Key × A)) → All (λ (k, a). Occurs ps k) ps
  all_occur [] = tt
  all_occur ((k, a) ∷ ps) = (
    rw (beq_refl keys.key_eq k),
    All-mono (λ (j, b). Occurs ps j) (λ (j, b). Occurs ((k, a) ∷ ps) j)
        (λ (j, b) h. Occurs-later (k, a) ps j h) ps (all_occur ps),
  )

  All-keys_from :
      (P : keys.Key → Type 0) (ks : List keys.Key) (ps : List (keys.Key × A))
      → All P ks
      → All (λ (k, a). P k) ps
      → All P (keys_from keys ks ps)
  All-keys_from P ks [] h k = h
  All-keys_from P ks ((j, a) ∷ ps) h (p, k) =
      All-keys_from P (add_key keys.key_eq ks j) ps (All-add_key keys P ks j h p) k

  All-each :
      (ps : List (keys.Key × A)) (ks : List keys.Key)
      → All (Occurs ps) ks
      → All (λ (k, as_). is_empty as_ ≡ false) (each keys ps ks)
  All-each ps [] h = tt
  All-each ps (k ∷ ks) (h, hs) = (h, All-each ps ks hs)

  reference_nonempty :
      (ps : List (keys.Key × A)) → All (λ (k, as_). is_empty as_ ≡ false) (reference keys ps)
  reference_nonempty ps =
      All-each ps (keys_from keys [] ps) (All-keys_from (Occurs ps) [] ps tt (all_occur ps))

module _ (keys : ChainKeys) (transport : Transport) {Source : Type 0} (source_eq : Eq Source) where
  abbrev Groups : Type 0
  Groups = EndpointCandidateGroups keys transport Source

  abbrev wanted :
      Option Family
      → keys.Key × List (Source × transport.Addr)
      → keys.Key × List (Source × transport.Addr)
  wanted family (chain, tagged) = (chain, members keys transport source_eq family tagged)

  members-none :
      (tagged : List (Source × transport.Addr))
      → members keys transport source_eq none tagged ≡ tagged
  unfolding endpoint_matches_family
  members-none [] = refl
  members-none ((source, e) ∷ tagged) = ap (λ rest. (source, e) ∷ rest) (members-none tagged)

  filter-wanted :
      (family : Option Family) (gs : Groups)
      → All (λ (k, tagged). is_empty tagged ≡ false) gs
      → filter_endpoint_candidate_groups keys transport gs family
        ≡ map (wanted family) (retain (has_members keys transport source_eq family) gs)
  unfolding filter_endpoint_candidate_groups
  filter-wanted none [] h = refl
  filter-wanted none ((k, tagged) ∷ gs) (h, hs) =
      let some_left : is_empty (members keys transport source_eq none tagged) ≡ false =
        ap is_empty (members-none tagged) ∙ h in
      rw (some_left) (
        ap (λ wants. (k, wants) ∷ gs) (sym (members-none tagged))
        ∙ ap (λ rest. wanted none (k, tagged) ∷ rest) (filter-wanted none gs hs))
  filter-wanted (some family) [] h = refl
  filter-wanted (some family) ((k, tagged) ∷ gs) (h, hs) =
      elim (Bool-cases (is_empty (members keys transport source_eq (some family) tagged))) [
        | inl e ↦ rw (e) (filter-wanted (some family) gs hs)
        | inr e ↦ rw (e) (
            ap (λ rest. (k, members keys transport source_eq (some family) tagged) ∷ rest)
              (filter-wanted (some family) gs hs))
      ]

  map-wanted :
      (lookup : EndpointLookup) (gs : Groups)
      → map (group_of keys transport source_eq lookup) (map (wanted lookup.family) gs)
        ≡ map (described keys transport source_eq lookup) gs
  map-wanted lookup [] = refl
  map-wanted lookup ((chain, tagged) ∷ gs) =
      rw (group_of-described keys transport source_eq lookup chain tagged, map-wanted lookup gs)

  retain_all :
      (gs : List (EndpointCandidateGroup keys.Key transport.Addr Source))
      → All (λ g. is_empty g.endpoints ≡ false) gs
      → retain (λ g. not (is_empty g.endpoints)) gs ≡ gs
  retain_all [] h = refl
  retain_all (g ∷ gs) (h, hs) = rw (h) (ap (λ rest. g ∷ rest) (retain_all gs hs))

  take_nonempty :
      (n : ℕ) (es : List transport.Addr)
      → 0 < n
      → is_empty es ≡ false
      → is_empty (take n es) ≡ false
  take_nonempty zero es h k = absurd (omega arith)
  take_nonempty (suc n) [] h k = k
  take_nonempty (suc n) (e ∷ es) h k = refl

  some_left :
      (wants : List (Source × transport.Addr))
      → is_empty wants ≡ false
      → is_empty (first_of_each transport.addr_eq [] (map (λ (source, e). e) wants)) ≡ false
  some_left [] h = h
  some_left ((source, e) ∷ wants) h =
      first_nonempty transport.addr_eq (e ∷ []) (map (λ (source, e). e) wants) refl

  described_nonempty :
      (lookup : EndpointLookup)
      → 0 < limit_or_max lookup.record_limit
      → (gs : Groups)
      → All
          (λ g. is_empty g.endpoints ≡ false)
          (map
            (described keys transport source_eq lookup)
            (retain (has_members keys transport source_eq lookup.family) gs))
  described_nonempty lookup real [] = tt
  described_nonempty lookup real ((k, tagged) ∷ gs) =
      let wants = members keys transport source_eq lookup.family tagged in
      elim (Bool-cases (is_empty wants)) [
        | inl e ↦ rw (e) (described_nonempty lookup real gs)
        | inr e ↦ rw (e) (
          take_nonempty (limit_or_max lookup.record_limit) _ real (some_left wants e),
          described_nonempty lookup real gs,
        )
      ]

  -- The candidates of a lookup are exactly these: of the groups of the admitted records, in their order,
  -- those with an endpoint of the family; each with its sources and its endpoints of that family, each
  -- once and in the order in which they come first, and no more endpoints than the record limit; and of
  -- these groups the first three by default, the first ones up to the limit of the query, those of the
  -- sequence that it asks for, or all. A record limit is not 0, as its type says.
  pub candidate_groups-reference :
      (records : List (TaggedEndpointCandidate keys.Key Source)) (lookup : EndpointLookup)
      → 0 < limit_or_max lookup.record_limit
      → candidate_groups keys transport source_eq records lookup
        ≡ chosen keys transport source_eq lookup.sequences (
            map (described keys transport source_eq lookup) (
              retain
                (has_members keys transport source_eq lookup.family)
                (reference keys (admitted keys transport records))))
  unfolding candidate_groups
  candidate_groups-reference records lookup real =
      let groups = reference keys (admitted keys transport records) in
      let family = lookup.family in
      let kept = retain (has_members keys transport source_eq family) groups in
      ap
        (λ gs.
          retain (λ g. not (is_empty g.endpoints))
            (map (group_of keys transport source_eq lookup)
              (select_group_pairs keys gs lookup.sequences)))
        (ap (λ gs. filter_endpoint_candidate_groups keys transport gs family)
            (grouped_endpoint_candidates-reference keys transport records).0
          ∙ filter-wanted family groups (reference_nonempty keys (admitted keys transport records)))
      ∙ ap (retain (λ g. not (is_empty g.endpoints))) (
          map-select keys transport source_eq lookup lookup.sequences (map (wanted family) kept)
          ∙ ap (chosen keys transport source_eq lookup.sequences) (map-wanted lookup kept))
      ∙ retain_all _ (
          All-chosen keys transport source_eq (λ g. is_empty g.endpoints ≡ false) lookup.sequences _
            (described_nonempty lookup real groups))
