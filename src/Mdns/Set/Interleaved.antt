-- ===== src/Mdns/Set/Interleaved.antt =====
-- Any number of tasks that call `upsert`, `remove` and `shutdown` at once: what holds after any sequence
-- of their steps.
use ddns.Prelude.{
  ℕ, ◌+◌, ◌<◌, ◌≤◌, ◌≡◌, refl, sym, ap, subst, ◌∙◌, Bool, true, false, not, ◌==◌, ==_iff, ltb,
  if◌then◌else◌, Bool-cases, inl, inr, arith, Eq, contains, Distinct, Distinct-map-retain, nat_eq,
  pair_eq, or-eq-false,
}
use ddns.Prelude.{List, [], ◌∷◌, ◌++◌, map, retain, none, some, Option-cases}
use mathlib.Core.Option.{some-injective, none-ne-some}
use ddns.Mdns.Set.Defs.{
  MdnsResolverSet, new, get, without, upsert_bound, upsert_race, remove, close, drain, stop,
}

abbrev pub one_if : Bool → ℕ
one_if true = 1
one_if false = 0

abbrev pub count : ℕ → List ℕ → ℕ
count r [] = 0
count r (x ∷ xs) = one_if (x == r) + count r xs

count-append : (r : ℕ) (xs ys : List ℕ) → count r (xs ++ ys) ≡ count r xs + count r ys
count-append r [] ys = omega arith
count-append r (x ∷ xs) ys = omega (arith, count-append r xs ys)

count-retain :
    (r q : ℕ) (xs : List ℕ)
    → count r (retain (λ x. not (x == q)) xs) ≡ (if r == q then 0 else count r xs)
count-retain r q [] = ground arith
count-retain r q (x ∷ xs) = ground (arith, count-retain r q xs)

count_contained : (r : ℕ) (xs : List ℕ) → contains nat_eq xs r ≡ true → 0 < count r xs
count_contained r [] h = ground arith
count_contained r (x ∷ xs) h = elim (Bool-cases (contains nat_eq xs r)) [
  | inl e ↦ omega (arith, count_contained r xs e)
  | inr e ↦ ground arith
]

one_if_le : (b : Bool) → one_if b ≤ 1
one_if_le true = omega arith
one_if_le false = omega arith

-- One thing is taken from one list and added to another.
count_moved :
    (r q : ℕ) (xs : List ℕ)
    → count r xs ≡ 1
    → one_if (r == q) + count q (retain (λ x. not (x == r)) xs) ≡ count q xs
count_moved r q xs once = elim (Bool-cases (q == r)) [
  | inl e ↦ ground (arith, count-retain q r xs, ap (λ x. count x xs) ((==_iff q r).0 e))
  | inr e ↦ ground (arith, count-retain q r xs)
]

module _ {Binding : Type 0} (binding_eq : Eq Binding) where
  abbrev pub ids : List (Binding × ℕ) → List ℕ
  ids resolvers = map (λ (b, r). r) resolvers

  abbrev pub uses : MdnsResolverSet Binding → ℕ → ℕ
  uses s r =
      count r (ids s.resolvers) + count r (ids s.pending) + count r s.retiring + count r s.stopped

  -- One resolver for each binding, and each resolver that was created in one place and once: in the map,
  -- with its `upsert`, on its way to its `shutdown`, or stopped.
  pub record IsResolverSet (s : MdnsResolverSet Binding) : Type 0 where
    pub one_each : Distinct binding_eq (map (λ (b, r). b) s.resolvers)
    pub each_once : (r : ℕ) → uses s r ≡ one_if (ltb r s.created)

  pub data Step (s : MdnsResolverSet Binding) : MdnsResolverSet Binding → Type 0 where
    binds : (b : Binding) → Step s (upsert_bound binding_eq s b)
    races :
        (b : Binding) (r : ℕ)
        → contains (pair_eq binding_eq nat_eq) s.pending (b, r) ≡ true
        → Step s (upsert_race binding_eq s b r).0
    removes : (b : Binding) → Step s (remove binding_eq s b).0
    closes : Step s (close binding_eq s)
    drains : s.closed ≡ true → Step s (drain binding_eq s)
    stops : (r : ℕ) → contains nat_eq s.retiring r ≡ true → Step s (stop binding_eq s r)

  pub data Steps (s : MdnsResolverSet Binding) : MdnsResolverSet Binding → Type 0 where
    here : Steps s s
    next : {t u : MdnsResolverSet Binding} → Steps s t → Step t u → Steps s u

  pub new-IsResolverSet : IsResolverSet (new binding_eq)
  unfolding new
  new-IsResolverSet = record { one_each = tt; each_once = λ r. ground arith }

  upsert_bound-IsResolverSet :
      (s : MdnsResolverSet Binding) (b : Binding)
      → IsResolverSet s
      → IsResolverSet (upsert_bound binding_eq s b)
  unfolding upsert_bound
  upsert_bound-IsResolverSet s b h = record {
    one_each = h.one_each;
    each_once = λ r. ground (arith, h.each_once r);
  }

  get-none :
      (b : Binding) (rs : List (Binding × ℕ))
      → get binding_eq b rs ≡ none
      → contains binding_eq (map (λ (b, r). b) rs) b ≡ false
  get-none b [] h = refl
  get-none b ((c, r) ∷ rs) h = elim (Bool-cases (binding_eq.beq c b)) [
    | inl e ↦
        let here_is : get binding_eq b ((c, r) ∷ rs) ≡ some r = rw (get, e) in
        absurd (none-ne-some r (sym h ∙ here_is))
    | inr e ↦
        let later : get binding_eq b ((c, r) ∷ rs) ≡ get binding_eq b rs = rw (get, e) in
        rw e (get-none b rs (sym later ∙ h))
  ]

  without_absent :
      (b : Binding) (rs : List (Binding × ℕ))
      → contains binding_eq (map (λ (b, r). b) rs) b ≡ false
      → without binding_eq b rs ≡ rs
  without_absent b [] h = refl
  without_absent b ((c, r) ∷ rs) h =
      let (other, absent) =
        or-eq-false (binding_eq.beq c b) (contains binding_eq (map (λ (b, r). b) rs) b) h in
      rw (other, without_absent b rs absent)

  count-without :
      (r q : ℕ) (b : Binding) (rs : List (Binding × ℕ))
      → Distinct binding_eq (map (λ (b, r). b) rs)
      → get binding_eq b rs ≡ some q
      → count r (ids rs) ≡ one_if (q == r) + count r (ids (without binding_eq b rs))
  count-without r q b [] d h = absurd (none-ne-some q h)
  count-without r q b ((c, p) ∷ rs) (n, d) h = elim (Bool-cases (binding_eq.beq c b)) [
    | inl e ↦
        let here_is : get binding_eq b ((c, p) ∷ rs) ≡ some p = rw (get, e) in
        let same : p ≡ q = some-injective p q (sym here_is ∙ h) in
        let gone = without_absent b rs (
          subst (λ k. contains binding_eq (map (λ (b, r). b) rs) k ≡ false)
            ((binding_eq.beq_iff c b).0 e) n) in
        rw (e, gone, same)
    | inr e ↦
        let later : get binding_eq b ((c, p) ∷ rs) ≡ get binding_eq b rs = rw (get, e) in
        rw e (omega (arith, count-without r q b rs d (sym later ∙ h)))
  ]

  remove-IsResolverSet :
      (s : MdnsResolverSet Binding) (b : Binding)
      → IsResolverSet s
      → IsResolverSet (remove binding_eq s b).0
  unfolding remove
  remove-IsResolverSet s b h = elim (Option-cases (get binding_eq b s.resolvers)) [
    | inl missing ↦ rw (remove, missing) h
    | inr (q, held) ↦
        rw (remove, held)
          (record {
            one_each = Distinct-map-retain binding_eq (λ (b, r). b) _ s.resolvers h.one_each;
            each_once =
                λ r. omega (arith, h.each_once r, count-without r q b s.resolvers h.one_each held);
          })
  ]

  pub drain-IsResolverSet :
      (s : MdnsResolverSet Binding) → IsResolverSet s → IsResolverSet (drain binding_eq s)
  unfolding drain
  drain-IsResolverSet s h = record {
    one_each = tt;
    each_once = λ r. omega (arith, h.each_once r, count-append r (ids s.resolvers) s.retiring);
  }

  stop-IsResolverSet :
      (s : MdnsResolverSet Binding) (r : ℕ)
      → contains nat_eq s.retiring r ≡ true
      → IsResolverSet s
      → IsResolverSet (stop binding_eq s r)
  unfolding stop
  stop-IsResolverSet s r held h = record {
    one_each = h.one_each;
    each_once = λ q.
        let once : count r s.retiring ≡ 1 =
          omega (
            arith,
            h.each_once r,
            count_contained r s.retiring held,
            one_if_le (ltb r s.created),
          ) in
        omega (arith, h.each_once q, count_moved r q s.retiring once);
  }

  ids-retain :
      (r : ℕ) (rs : List (Binding × ℕ))
      → ids (retain (λ (b, x). not (x == r)) rs) ≡ retain (λ x. not (x == r)) (ids rs)
  ids-retain r [] = refl
  ids-retain r ((c, p) ∷ rs) = elim (Bool-cases (p == r)) [
    | inl e ↦ rw (e, ids-retain r rs)
    | inr e ↦ rw (e, ids-retain r rs)
  ]

  pending_id :
      (b : Binding) (r : ℕ) (rs : List (Binding × ℕ))
      → contains (pair_eq binding_eq nat_eq) rs (b, r) ≡ true
      → contains nat_eq (ids rs) r ≡ true
  pending_id b r [] h = h
  pending_id b r ((c, p) ∷ rs) h =
      elim (Bool-cases (contains (pair_eq binding_eq nat_eq) rs (b, r))) [
        | inl e ↦ ground (arith, pending_id b r rs e)
        | inr e ↦ ground arith
      ]

  -- A candidate that meets a closed set is on its way to its `shutdown`.
  pub race_closed :
      (s : MdnsResolverSet Binding) (b : Binding) (r : ℕ)
      → s.closed ≡ true
      → (upsert_race binding_eq s b r).0 ≡ record s {
        pending = retain (λ (b, x). not (x == r)) s.pending;
        retiring = r ∷ s.retiring;
      }
  unfolding upsert_race
  race_closed s b r e = rw (upsert_race, e)

  upsert_race-IsResolverSet :
      (s : MdnsResolverSet Binding) (b : Binding) (r : ℕ)
      → contains (pair_eq binding_eq nat_eq) s.pending (b, r) ≡ true
      → IsResolverSet s
      → IsResolverSet (upsert_race binding_eq s b r).0
  unfolding upsert_race
  upsert_race-IsResolverSet s b r held h =
      let once : count r (ids s.pending) ≡ 1 = omega (
        arith,
        h.each_once r,
        count_contained r (ids s.pending) (pending_id b r s.pending held),
        one_if_le (ltb r s.created),
      ) in
      let moved : (q : ℕ)
          → one_if (r == q) + count q (ids (retain (λ (b, x). not (x == r)) s.pending))
            ≡ count q (ids s.pending) =
        λ q.
          ap (λ xs. one_if (r == q) + count q xs) (ids-retain r s.pending)
          ∙ count_moved r q (ids s.pending) once in
      let lost : IsResolverSet (record s {
        pending = retain (λ (b, x). not (x == r)) s.pending;
        retiring = r ∷ s.retiring;
      }) =
        record { one_each = h.one_each; each_once = λ q. omega (arith, h.each_once q, moved q) } in
      elim (Bool-cases s.closed) [
        | inl e ↦ subst IsResolverSet (sym (race_closed s b r e)) lost
        | inr e ↦ elim (Option-cases (get binding_eq b s.resolvers)) [
          | inr (q, taken) ↦ rw (upsert_race, e, taken) lost
          | inl free ↦
              rw (upsert_race, e, free)
                (record {
                  one_each = (get-none b s.resolvers free, h.one_each);
                  each_once = λ q. omega (arith, h.each_once q, moved q);
                })
        ]
      ]

  pub Step-IsResolverSet :
      {s t : MdnsResolverSet Binding} → Step s t → IsResolverSet s → IsResolverSet t
  unfolding close
  Step-IsResolverSet {s} (binds b) h = upsert_bound-IsResolverSet s b h
  Step-IsResolverSet {s} (races b r held) h = upsert_race-IsResolverSet s b r held h
  Step-IsResolverSet {s} (removes b) h = remove-IsResolverSet s b h
  Step-IsResolverSet {s} closes h = record { one_each = h.one_each; each_once = h.each_once }
  Step-IsResolverSet {s} (drains e) h = drain-IsResolverSet s h
  Step-IsResolverSet {s} (stops r held) h = stop-IsResolverSet s r held h

  pub Steps-IsResolverSet :
      {s t : MdnsResolverSet Binding} → IsResolverSet s → Steps s t → IsResolverSet t
  Steps-IsResolverSet h here = h
  Steps-IsResolverSet h (next r st) = Step-IsResolverSet st (Steps-IsResolverSet h r)

  -- Whatever the tasks do, in any order: a binding has one resolver in the map at most, and each resolver
  -- that was created is in one place and once: in the map, with the `upsert` that bound it, on its way to
  -- its `shutdown`, or stopped. None is lost and none is both in the map and shut down.
  pub Steps-new-IsResolverSet :
      {s : MdnsResolverSet Binding} → Steps (new binding_eq) s → IsResolverSet s
  Steps-new-IsResolverSet = Steps-IsResolverSet new-IsResolverSet
