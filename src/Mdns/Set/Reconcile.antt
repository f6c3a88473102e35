-- ===== src/Mdns/Set/Reconcile.antt =====
-- What `reconcile` leaves in the set.
use ddns.Prelude.{
  ℕ, ◌≡◌, refl, sym, ap, subst, ◌∙◌, Bool, true, false, not, ◌&&◌, ◌||◌, Bool-cases, inl, inr, ◌⊎◌,
  arith, if◌then◌else◌, Eq, contains,
}
use ddns.Prelude.{List, [], ◌∷◌, map, Option, none, some, Option-cases}
use mathlib.Core.Option.{none-ne-some}
use ddns.Mdns.Set.Defs.{
  MdnsResolverSet, existing, must_bind, get, upsert_start, upsert_bound, upsert_race, remove,
}
use ddns.Mdns.Set.Lookups.{
  is_some, or-false, or-true, only_desired, wanted, get-remove, remove_closed, contains-keys,
}
use ddns.Mdns.Set.Serial.{upsert, retire, upsert_all, reconcile}

module _ {Binding : Type 0} (binding_eq : Eq Binding) (can_bind can_stop : Binding → Bool) where
  won :
      (s : MdnsResolverSet Binding) (c : Binding)
      → s.closed ≡ false
      → get binding_eq c s.resolvers ≡ none
      → (t : MdnsResolverSet Binding) × ((upsert_race binding_eq
            (upsert_bound binding_eq s c)
            c
            s.created).0
          ≡ t)
        × (t.resolvers ≡ (c, s.created) ∷ s.resolvers)
        × (t.closed ≡ false)
  unfolding upsert_race upsert_bound
  won s c is_open missing = (_, refl, rw (is_open, missing), rw (is_open, missing) is_open)

  upsert-cases :
      (s : MdnsResolverSet Binding) (c : Binding)
      → s.closed ≡ false
      → ((r : ℕ) × (get binding_eq c s.resolvers ≡ some r)
          × (upsert binding_eq can_bind can_stop s c ≡ (s, true)))
        ⊎ ((get binding_eq c s.resolvers ≡ none)
            × (can_bind c ≡ true)
            × (t : MdnsResolverSet Binding) × (upsert binding_eq can_bind can_stop s c ≡ (t, true))
            × (t.resolvers ≡ (c, s.created) ∷ s.resolvers)
            × (t.closed ≡ false))
        ⊎ ((get binding_eq c s.resolvers ≡ none)
            × (can_bind c ≡ false)
            × (upsert binding_eq can_bind can_stop s c ≡ (s, false)))
  unfolding upsert upsert_start
  upsert-cases s c is_open = elim (Option-cases (get binding_eq c s.resolvers)) [
    | inr (r, held) ↦
        let started : upsert_start binding_eq s c ≡ existing r = rw (upsert_start, is_open, held) in
        inl (r, held, rw (upsert, started))
    | inl missing ↦
        let started : upsert_start binding_eq s c ≡ must_bind =
          rw (upsert_start, is_open, missing) in
        elim (Bool-cases (can_bind c)) [
          | inl bound ↦
              let (t, raced, resolvers, closed) = won s c is_open missing in
              inr (
                inl (
                  missing,
                  bound,
                  t,
                  rw (upsert, started, bound) (ap (λ x. (x, true)) raced),
                  resolvers,
                  closed,
                ))
          | inr failed ↦ inr (inr (missing, failed, rw (upsert, started, failed)))
        ]
  ]

  -- What one `upsert` does to a binding.
  record Upserted (s t : MdnsResolverSet Binding) (c : Binding) : Type 0 where
    still_open : t.closed ≡ false
    kept :
        (b : Binding) (r : ℕ)
        → get binding_eq b s.resolvers ≡ some r
        → get binding_eq b t.resolvers ≡ some r
    there :
        (b : Binding)
        → is_some (get binding_eq b t.resolvers)
          ≡ is_some (get binding_eq b s.resolvers) || (binding_eq.beq c b && can_bind b)

  nothing_new :
      (s : MdnsResolverSet Binding) (c : Binding)
      → s.closed ≡ false
      → is_some (get binding_eq c s.resolvers) || not (can_bind c) ≡ true
      → Upserted s s c
  nothing_new s c is_open old = record {
    still_open = is_open;
    kept = λ b r h. h;
    there = λ b. elim (Bool-cases (binding_eq.beq c b)) [
      | inl e ↦
          let same : is_some (get binding_eq b s.resolvers) || not (can_bind b) ≡ true =
            subst (λ x. is_some (get binding_eq x s.resolvers) || not (can_bind x) ≡ true)
              ((binding_eq.beq_iff c b).0 e) old in
          ground (arith, same, e)
      | inr e ↦ ground (arith, e)
    ];
  }

  upsert-Upserted :
      (s : MdnsResolverSet Binding) (c : Binding)
      → s.closed ≡ false
      → Upserted s (upsert binding_eq can_bind can_stop s c).0 c
  upsert-Upserted s c is_open = elim (upsert-cases s c is_open) [
    | inl (r, held, same) ↦
        subst (λ t. Upserted s t.0 c) (sym same) (nothing_new s c is_open (rw held refl))
    | inr (inr (missing, failed, same)) ↦
        subst (λ t. Upserted s t.0 c) (sym same)
          (nothing_new s c is_open (rw (missing, failed) refl))
    | inr (inl (missing, bound, t, result, resolvers, closed)) ↦
        let holds : (b : Binding)
            → get binding_eq b t.resolvers
              ≡ (if binding_eq.beq c b then some s.created else get binding_eq b s.resolvers) =
          λ b. ap (get binding_eq b) resolvers in
        subst (λ t. Upserted s t.0 c) (sym result)
          (record {
            still_open = closed;
            kept = λ b r h. elim (Bool-cases (binding_eq.beq c b)) [
              | inl e ↦
                  let gone =
                    subst (λ x. get binding_eq x s.resolvers ≡ none) ((binding_eq.beq_iff c b).0 e)
                      missing in
                  absurd (none-ne-some r (sym gone ∙ h))
              | inr e ↦ holds b ∙ rw e h
            ];
            there = λ b. elim (Bool-cases (binding_eq.beq c b)) [
              | inl e ↦
                  let able = subst (λ x. can_bind x ≡ true) ((binding_eq.beq_iff c b).0 e) bound in
                  ap is_some (holds b)
                  ∙ rw (e, able) (or-true (is_some (get binding_eq b s.resolvers)))
              | inr e ↦
                  ap is_some (holds b) ∙ rw e (or-false (is_some (get binding_eq b s.resolvers)))
            ];
          })
  ]

  -- What any number of them does.
  record AllUpserted (s t : MdnsResolverSet Binding) (desired : List Binding) : Type 0 where
    all_kept :
        (b : Binding) (r : ℕ)
        → get binding_eq b s.resolvers ≡ some r
        → get binding_eq b t.resolvers ≡ some r
    all_there :
        (b : Binding)
        → is_some (get binding_eq b t.resolvers)
          ≡ is_some (get binding_eq b s.resolvers) || (contains binding_eq desired b && can_bind b)

  upsert_all_state :
      (s : MdnsResolverSet Binding) (c : Binding) (desired : List Binding)
      → (upsert_all binding_eq can_bind can_stop s (c ∷ desired)).0
        ≡ (upsert_all binding_eq can_bind can_stop
            (upsert binding_eq can_bind can_stop s c).0
            desired).0
  unfolding upsert_all
  upsert_all_state s c desired = elim (Bool-cases (upsert binding_eq can_bind can_stop s c).1) [
    | inl e ↦ rw e
    | inr e ↦ rw e
  ]

  upsert_all-AllUpserted :
      (s : MdnsResolverSet Binding) (desired : List Binding)
      → s.closed ≡ false
      → AllUpserted s (upsert_all binding_eq can_bind can_stop s desired).0 desired
  unfolding upsert_all
  upsert_all-AllUpserted s [] is_open = record {
    all_kept = λ b r h. h;
    all_there = λ b. or-false (is_some (get binding_eq b s.resolvers));
  }
  upsert_all-AllUpserted s (c ∷ desired) is_open =
      let one = upsert-Upserted s c is_open in
      let rest =
        upsert_all-AllUpserted (upsert binding_eq can_bind can_stop s c).0 desired one.still_open in
      subst (λ t. AllUpserted s t (c ∷ desired)) (sym (upsert_all_state s c desired))
        (record {
          all_kept = λ b r h. rest.all_kept b r (one.kept b r h);
          all_there = λ b. rest.all_there b ∙ rw (one.there b) (ground arith);
        })

  retire_kept :
      (desired : List Binding) (s : MdnsResolverSet Binding) (c : Binding)
      (instances : List Binding)
      → contains binding_eq desired c ≡ true
      → (retire binding_eq can_bind can_stop desired s (c ∷ instances)).0
        ≡ (retire binding_eq can_bind can_stop desired s instances).0
  unfolding retire
  retire_kept desired s c instances e = rw e

  retire_gone :
      (desired : List Binding) (s : MdnsResolverSet Binding) (c : Binding)
      (instances : List Binding)
      → contains binding_eq desired c ≡ false
      → (retire binding_eq can_bind can_stop desired s (c ∷ instances)).0
        ≡ (retire binding_eq can_bind can_stop desired (remove binding_eq s c).0 instances).0
  unfolding retire
  retire_gone desired s c instances e = elim (Bool-cases (can_stop c)) [
    | inl k ↦ rw (e, k)
    | inr k ↦ rw (e, k)
  ]

  kept_if :
      (b c : Binding) (desired instances : List Binding) (o : Option ℕ)
      → contains binding_eq desired c ≡ true
      → (if contains binding_eq instances b && not (contains binding_eq desired b) then none else o)
        ≡ (if contains binding_eq (c ∷ instances) b && not (contains binding_eq desired b)
            then none
            else o)
  kept_if b c desired instances o e = elim (Bool-cases (binding_eq.beq c b)) [
    | inl k ↦
        let same =
          subst (λ x. contains binding_eq desired x ≡ true) ((binding_eq.beq_iff c b).0 k) e in
        ground (arith, k, same)
    | inr k ↦ rw k
  ]

  gone_if :
      (b c : Binding) (desired instances : List Binding) (o : Option ℕ)
      → contains binding_eq desired c ≡ false
      → (if contains binding_eq instances b && not (contains binding_eq desired b)
          then none
          else (if binding_eq.beq c b then none else o))
        ≡ (if contains binding_eq (c ∷ instances) b && not (contains binding_eq desired b)
            then none
            else o)
  gone_if b c desired instances o e = elim (Bool-cases (binding_eq.beq c b)) [
    | inl k ↦
        let same =
          subst (λ x. contains binding_eq desired x ≡ false) ((binding_eq.beq_iff c b).0 k) e in
        ground (arith, k, same)
    | inr k ↦ rw k
  ]

  get-retire :
      (desired : List Binding) (s : MdnsResolverSet Binding) (instances : List Binding)
      (b : Binding)
      → (get binding_eq b (retire binding_eq can_bind can_stop desired s instances).0.resolvers ≡ (
          if contains binding_eq instances b && not (contains binding_eq desired b)
          then none
          else get binding_eq b s.resolvers))
  unfolding retire
  get-retire desired s [] b = refl
  get-retire desired s (c ∷ instances) b = elim (Bool-cases (contains binding_eq desired c)) [
    | inl e ↦
        ap (λ t. get binding_eq b t.resolvers) (retire_kept desired s c instances e)
        ∙ get-retire desired s instances b
        ∙ kept_if b c desired instances (get binding_eq b s.resolvers) e
    | inr e ↦
        ap (λ t. get binding_eq b t.resolvers) (retire_gone desired s c instances e)
        ∙ get-retire desired (remove binding_eq s c).0 instances b
        ∙ rw (get-remove binding_eq s b c)
            (gone_if b c desired instances (get binding_eq b s.resolvers) e)
  ]

  retire_closed :
      (desired : List Binding) (s : MdnsResolverSet Binding) (instances : List Binding)
      → (retire binding_eq can_bind can_stop desired s instances).0.closed ≡ s.closed
  unfolding retire
  retire_closed desired s [] = refl
  retire_closed desired s (c ∷ instances) = elim (Bool-cases (contains binding_eq desired c)) [
    | inl e ↦
        ap (λ t. t.closed) (retire_kept desired s c instances e) ∙ retire_closed desired s instances
    | inr e ↦
        ap (λ t. t.closed) (retire_gone desired s c instances e)
        ∙ retire_closed desired (remove binding_eq s c).0 instances
        ∙ remove_closed binding_eq s c
  ]

  retired_get :
      (s : MdnsResolverSet Binding) (desired : List Binding) (b : Binding)
      → get binding_eq b
          (retire binding_eq can_bind can_stop desired s
            (map (λ (b, r). b) s.resolvers)).0.resolvers
        ≡ (if contains binding_eq desired b then get binding_eq b s.resolvers else none)
  retired_get s desired b =
      get-retire desired s (map (λ (b, r). b) s.resolvers) b
      ∙ rw (contains-keys binding_eq b s.resolvers)
          (only_desired (contains binding_eq desired b) (get binding_eq b s.resolvers))

  reconciled :
      (s : MdnsResolverSet Binding) (desired : List Binding)
      → s.closed ≡ false
      → AllUpserted
          (retire binding_eq can_bind can_stop desired s (map (λ (b, r). b) s.resolvers)).0
          (reconcile binding_eq can_bind can_stop s desired).0
          desired
  unfolding reconcile
  reconciled s desired is_open =
      upsert_all-AllUpserted
        (retire binding_eq can_bind can_stop desired s (map (λ (b, r). b) s.resolvers)).0 desired
        (retire_closed desired s (map (λ (b, r). b) s.resolvers) ∙ is_open)

  -- On a set that is not shut down, when no other task interferes: after `reconcile` a binding has a
  -- resolver just when it is desired and had one already or can be bound.
  pub reconcile-outcome :
      (s : MdnsResolverSet Binding) (desired : List Binding) (b : Binding)
      → s.closed ≡ false
      → is_some (get binding_eq b (reconcile binding_eq can_bind can_stop s desired).0.resolvers)
        ≡ contains binding_eq desired b && (is_some (get binding_eq b s.resolvers) || can_bind b)
  reconcile-outcome s desired b is_open =
      (reconciled s desired is_open).all_there b
      ∙ rw (retired_get s desired b)
          (wanted (contains binding_eq desired b) (can_bind b) (get binding_eq b s.resolvers))

  -- On a set that is not shut down, when no other task interferes: a desired binding that has a resolver
  -- keeps the same one through `reconcile`.
  pub reconcile_keeps :
      (s : MdnsResolverSet Binding) (desired : List Binding) (b : Binding) (r : ℕ)
      → s.closed ≡ false
      → contains binding_eq desired b ≡ true
      → get binding_eq b s.resolvers ≡ some r
      → get binding_eq b (reconcile binding_eq can_bind can_stop s desired).0.resolvers ≡ some r
  reconcile_keeps s desired b r is_open want had =
      (reconciled s desired is_open).all_kept b r (retired_get s desired b ∙ rw want had)
