-- ===== src/Mdns/Set/Defs.antt =====
-- The state of `MdnsResolverSet` and its operations, split where they wait: what runs between two waits
-- runs under the lock. A resolver is known by the number of its creation and by its binding. The type of
-- a binding is a parameter with the equality that the struct derives.
use ddns.Prelude.{
  ℕ, ◌+◌, Bool, true, false, not, ◌==◌, if◌then◌else◌, Eq, List, [], ◌∷◌, ◌++◌, map, retain, Option,
  none, some,
}

module _ {Binding : Type 0} (binding_eq : Eq Binding) where
  -- `HashMap` by association: `get`, and `remove` of a key.
  abbrev pub get : Binding → List (Binding × ℕ) → Option ℕ
  get binding [] = none
  get binding ((b, r) ∷ resolvers) =
      let rest = get binding resolvers in if binding_eq.beq b binding then some r else rest

  abbrev pub without : Binding → List (Binding × ℕ) → List (Binding × ℕ)
  without binding resolvers = retain (λ (b, r). not (binding_eq.beq b binding)) resolvers

-- `resolvers` and `closed` are the fields of the struct. The others say what becomes of the resolvers
-- that were created: `pending` has those of an `upsert` that has bound and not yet taken the lock,
-- `retiring` those whose `shutdown` is to run, and `stopped` those for which it has run.
pub record MdnsResolverSet (Binding : Type 0) : Type 0 where
  pub resolvers : List (Binding × ℕ)
  pub closed : Bool
  pub created : ℕ
  pub pending : List (Binding × ℕ)
  pub retiring : List ℕ
  pub stopped : List ℕ

pub data Upsert : Type 0 where
  is_closed : Upsert
  existing : ℕ → Upsert
  inserted : ℕ → Upsert
  must_bind : Upsert

module _ {Binding : Type 0} (binding_eq : Eq Binding) where
  unfoldable pub new : MdnsResolverSet Binding
  new = record {
    resolvers = [];
    closed = false;
    created = 0;
    pending = [];
    retiring = [];
    stopped = [];
  }

  -- `upsert` up to its first wait: the answer, or that a resolver has to be bound.
  unfoldable pub upsert_start : MdnsResolverSet Binding → Binding → Upsert
  upsert_start s binding =
      if s.closed
      then is_closed
      else elim (get binding_eq binding s.resolvers) [ some r ↦ existing r | none ↦ must_bind ]

  -- `MdnsResolver::bind` of an `upsert` has succeeded.
  unfoldable pub upsert_bound : MdnsResolverSet Binding → Binding → MdnsResolverSet Binding
  upsert_bound s binding = record s {
    created = s.created + 1;
    pending = (binding, s.created) ∷ s.pending;
  }

  -- The block under the write lock, for the pending candidate: it is inserted, or it loses the race and
  -- is to be shut down.
  unfoldable pub upsert_race :
      MdnsResolverSet Binding → Binding → ℕ → MdnsResolverSet Binding × Upsert
  upsert_race s binding candidate =
      let pending = retain (λ (b, r). not (r == candidate)) s.pending in
      if s.closed
      then (record s { pending = pending; retiring = candidate ∷ s.retiring }, is_closed)
      else elim (get binding_eq binding s.resolvers) [
        | some r ↦ (record s { pending = pending; retiring = candidate ∷ s.retiring }, existing r)
        | none ↦ (
          record s { pending = pending; resolvers = (binding, candidate) ∷ s.resolvers },
          inserted candidate,
        )
      ]

  -- `remove`: whether there was one, which is to be shut down.
  unfoldable pub remove : MdnsResolverSet Binding → Binding → MdnsResolverSet Binding × Bool
  remove s binding = elim (get binding_eq binding s.resolvers) [
    | none ↦ (s, false)
    | some r ↦ (
      record s { resolvers = without binding_eq binding s.resolvers; retiring = r ∷ s.retiring },
      true,
    )
  ]

  -- `shutdown`: the set is closed, and then the map is drained.
  unfoldable pub close : MdnsResolverSet Binding → MdnsResolverSet Binding
  close s = record s { closed = true }

  unfoldable pub drain : MdnsResolverSet Binding → MdnsResolverSet Binding
  drain s = record s { resolvers = []; retiring = map (λ (b, r). r) s.resolvers ++ s.retiring }

  -- The `shutdown` of a resolver has run.
  unfoldable pub stop : MdnsResolverSet Binding → ℕ → MdnsResolverSet Binding
  stop s r = record s { retiring = retain (λ q. not (q == r)) s.retiring; stopped = r ∷ s.stopped }
