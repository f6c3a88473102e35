-- ===== src/LookupCache.antt =====
-- src/h3/cache.rs: the answers that the HTTP/3 resolver keeps, each until it expires. The concurrent map
-- is an association list, the clock an argument, and an endpoint lookup with its equality a parameter.
mod Tests
use ddns.Prelude.{
  ℕ, ◌+◌, ◌<◌, ◌≤◌, ◌≡◌, refl, ap, arith, Bool, true, false, not, ◌&&◌, Bool-cases, inl, inr,
}
use ddns.Prelude.{List, [], ◌∷◌, Option, none, some, map, ltb, leb, ◌==◌, if◌then◌else◌}
use ddns.Name.{Name, dot}
use ddns.Name.Defs.{name_eq}
use ddns.Name.Table.{name_eq_iff}

-- `trim_end_matches('.')`, `to_ascii_lowercase` and `eq_ignore_ascii_case`.
abbrev unless_dots : ℕ → Name → Name
unless_dots c [] = if c == dot then [] else c ∷ []
unless_dots c (d ∷ ds) = c ∷ d ∷ ds

unfoldable pub trim_end_dots : Name → Name
trim_end_dots [] = []
trim_end_dots (c ∷ cs) = unless_dots c (trim_end_dots cs)

abbrev lower : ℕ → ℕ
lower c = if leb 65 c && leb c 90 then c + 32 else c

unfoldable pub to_ascii_lowercase : Name → Name
to_ascii_lowercase [] = []
to_ascii_lowercase (c ∷ cs) = lower c ∷ to_ascii_lowercase cs

abbrev eq_ignore_ascii_case : Name → Name → Bool
eq_ignore_ascii_case a b = name_eq (to_ascii_lowercase a) (to_ascii_lowercase b)

record LookupKey (L : Type 0) : Type 0 where
  name : Name
  lookup : L

record CachedAnswer (C : Type 0) : Type 0 where
  candidates : C
  expires_at : ℕ

abbrev LookupCache : Type 0 → Type 0 → Type 0
LookupCache L C = List (LookupKey L × CachedAnswer C)

unfoldable lookup_key : {L : Type 0} → Name → L → LookupKey L
lookup_key name lookup = record { name = to_ascii_lowercase (trim_end_dots name); lookup = lookup }

module _ {L C : Type 0} where
  -- `retain` by the name, whatever the lookup.
  unfoldable invalidate_name : Name → LookupCache L C → LookupCache L C
  invalidate_name name [] = []
  invalidate_name name ((key, cached) ∷ cache) =
      let rest = invalidate_name name cache in
      if eq_ignore_ascii_case key.name (trim_end_dots name) then rest else (key, cached) ∷ rest

  unfoldable clear : LookupCache L C → LookupCache L C
  clear cache = []

module _ {L : Type 0} (same : L → L → Bool) where
  abbrev key_eq : LookupKey L → LookupKey L → Bool
  key_eq a b = name_eq a.name b.name && same a.lookup b.lookup

name_eq_refl : (a : Name) → name_eq a a ≡ true
name_eq_refl a = (name_eq_iff a a).1 refl

module _ {L C : Type 0} (same : L → L → Bool) where
  unfoldable find : LookupKey L → LookupCache L C → Option (CachedAnswer C)
  find key [] = none
  find key ((k, cached) ∷ cache) = if key_eq same k key then some cached else find key cache

  unfoldable remove : LookupKey L → LookupCache L C → LookupCache L C
  remove key [] = []
  remove key ((k, cached) ∷ cache) =
      let rest = remove key cache in if key_eq same k key then rest else (k, cached) ∷ rest

  unfoldable get : ℕ → LookupKey L → LookupCache L C → Option C × LookupCache L C
  get now key cache = elim (find key cache) [
    | none ↦ (none, cache)
    | some cached ↦
        if ltb now cached.expires_at
        then (some cached.candidates, cache)
        else (none, remove key cache)
  ]

  unfoldable insert : ℕ → LookupKey L → C → ℕ → LookupCache L C → LookupCache L C
  insert now key candidates ttl cache =
      if ttl == 0
      then cache
      else (key, record { candidates = candidates; expires_at = now + ttl }) ∷ remove key cache

  find-remove : (key : LookupKey L) (cache : LookupCache L C) → find key (remove key cache) ≡ none
  unfolding find remove
  find-remove key [] = refl
  find-remove key ((k, cached) ∷ cache) = elim (Bool-cases (key_eq same k key)) [
    | inl a ↦ rw a (find-remove key cache)
    | inr a ↦ rw (a, find, a) (find-remove key cache)
  ]

  gone :
      (now : ℕ) (key : LookupKey L) (cache : LookupCache L C)
      → (get now key (remove key cache)).0 ≡ none
  unfolding get
  gone now key cache = rw (get, find-remove key cache)

  dropped :
      (now : ℕ) (key : LookupKey L) (cache : LookupCache L C) (cached : CachedAnswer C)
      → find key cache ≡ some cached
      → ltb now cached.expires_at ≡ false
      → (get now key cache).1 ≡ remove key cache
  unfolding get
  dropped now key cache cached found late = rw (get, found, late)

  -- An answer that is inserted with a time to live is found until it has expired, and not from then on:
  -- then it is removed, and is not found at any time. The equality of lookups is reflexive at the key.
  get-insert :
      (now later again : ℕ) (key : LookupKey L) (candidates : C) (ttl : ℕ) (cache : LookupCache L C)
      → same key.lookup key.lookup ≡ true
      → 0 < ttl
      → (later < now + ttl
          → (get later key (insert now key candidates ttl cache)).0 ≡ some candidates)
        × (now + ttl ≤ later
            → ((get later key (insert now key candidates ttl cache)).0 ≡ none)
              × ((get again key (get later key (insert now key candidates ttl cache)).1).0 ≡ none))
  unfolding get insert find remove
  get-insert now later again key candidates ttl cache equal alive =
      let zero_free : (ttl == 0) ≡ false = ground arith in
      let named = name_eq_refl key.name in
      let inserted = insert now key candidates ttl cache in
      let expired : ltb later (now + ttl) ≡ false
          → (get again key (get later key inserted).1).0 ≡ none =
        λ t.
          let cached : CachedAnswer C = record {
            candidates = candidates;
            expires_at = now + ttl;
          } in
          let found : find key inserted ≡ some cached =
            rw (insert, zero_free, find, named, equal) in
          let left = dropped later key inserted cached found t in
          rw left (gone again key inserted) in
      (
        λ early.
            let t : ltb later (now + ttl) ≡ true = ground arith in
            rw (get, insert, zero_free, find, named, equal, t),
        λ late.
            let t : ltb later (now + ttl) ≡ false = ground arith in
            (rw (get, insert, zero_free, find, named, equal, t), expired t),
      )
