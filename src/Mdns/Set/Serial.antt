-- ===== src/Mdns/Set/Serial.antt =====
-- `upsert` and `reconcile` when no other task runs between their steps. Whether a resolver can be bound,
-- and whether its `shutdown` succeeds, are arguments.
use ddns.Prelude.{Bool, true, false, if◌then◌else◌, Eq, contains}
use ddns.Prelude.{List, [], ◌∷◌, ◌++◌, map}
use ddns.Mdns.Set.Defs.{
  MdnsResolverSet, is_closed, existing, inserted, must_bind, upsert_start, upsert_bound,
  upsert_race, remove,
}

pub data MdnsReconcileError (Binding : Type 0) : Type 0 where
  bind_error : Binding → MdnsReconcileError Binding
  remove_error : Binding → MdnsReconcileError Binding

module _ {Binding : Type 0} (binding_eq : Eq Binding) (can_bind can_stop : Binding → Bool) where
  -- The whole of `upsert`: the set after it, and whether it succeeds. No other task runs meanwhile, so a
  -- resolver that is bound is never too late (`won` below).
  unfoldable pub upsert : MdnsResolverSet Binding → Binding → MdnsResolverSet Binding × Bool
  upsert s binding = elim (upsert_start binding_eq s binding) [
    | is_closed ↦ (s, false)
    | existing r ↦ (s, true)
    | inserted r ↦ (s, true)
    | must_bind ↦
        if can_bind binding
        then (
          (upsert_race binding_eq (upsert_bound binding_eq s binding) binding s.created).0,
          true,
        )
        else (s, false)
  ]

  -- The instances that are not desired any more are removed. A removed one stays in `retiring` here, and
  -- whether its `shutdown` succeeds is seen in the errors.
  unfoldable pub retire :
      List Binding
      → MdnsResolverSet Binding
      → List Binding
      → MdnsResolverSet Binding × List (MdnsReconcileError Binding)
  retire desired s [] = (s, [])
  retire desired s (binding ∷ instances) =
      let kept = retire desired s instances in
      let (t, errors) = retire desired (remove binding_eq s binding).0 instances in
      if contains binding_eq desired binding
      then kept
      else if can_stop binding
      then (t, errors)
      else (t, remove_error binding ∷ errors)

  unfoldable pub upsert_all :
      MdnsResolverSet Binding
      → List Binding
      → MdnsResolverSet Binding × List (MdnsReconcileError Binding)
  upsert_all s [] = (s, [])
  upsert_all s (binding ∷ desired) =
      let (t, errors) = upsert_all (upsert s binding).0 desired in
      if (upsert s binding).1 then (t, errors) else (t, bind_error binding ∷ errors)

  -- `desired` in the order in which the set of the bindings is iterated.
  unfoldable pub reconcile :
      MdnsResolverSet Binding
      → List Binding
      → MdnsResolverSet Binding × List (MdnsReconcileError Binding)
  reconcile s desired =
      let (retired, removals) = retire desired s (map (λ (b, r). b) s.resolvers) in
      let (t, errors) = upsert_all retired desired in (t, removals ++ errors)
