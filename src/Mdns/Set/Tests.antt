-- ===== src/Mdns/Set/Tests.antt =====
-- Two tasks that race for one binding, and the theorems at concrete runs. A binding is a number.
use ddns.Mdns.Set.Lookups.{is_some}
use ddns.Mdns.Set.Serial.{bind_error, upsert, retire, upsert_all, reconcile}
use ddns.Mdns.Set.Reconcile.{reconcile-outcome, reconcile_keeps}
use ddns.Prelude.{
  ◌+◌, ℕ, ◌≡◌, refl, Bool, not, ◌==◌, ◌&&◌, ◌||◌, contains, some, ltb, false, nat_eq, [], ◌∷◌,
}
use ddns.Mdns.Set.Defs.{
  MdnsResolverSet, is_closed, new, get, upsert_start, upsert_bound, upsert_race, remove, close,
  drain, stop,
}
use ddns.Mdns.Set.Interleaved.{
  binds, races, stops, Steps, here, next, IsResolverSet, Steps-new-IsResolverSet, count, one_if,
  ids,
}
use ddns.Mdns.Set.Shutdown.{IsShut, shutdown-stops}

abbrev bound : MdnsResolverSet ℕ
bound = upsert_bound nat_eq (upsert_bound nat_eq (new nat_eq) 5) 5

abbrev raced : MdnsResolverSet ℕ
raced = (upsert_race nat_eq (upsert_race nat_eq bound 5 0).0 5 1).0

raced_state : raced ≡ record {
  resolvers = (5, 0) ∷ [];
  closed = false;
  created = 2;
  pending = [];
  retiring = 1 ∷ [];
  stopped = [];
}
unfolding upsert_race upsert_bound new
raced_state = refl

raced-Steps : Steps nat_eq (new nat_eq) raced
unfolding upsert_race upsert_bound new
raced-Steps = next (next (next (next here (binds 5)) (binds 5)) (races 5 0 refl)) (races 5 1 refl)

Steps-new-IsResolverSet_example : IsResolverSet nat_eq raced
Steps-new-IsResolverSet_example = Steps-new-IsResolverSet nat_eq raced-Steps

abbrev shut : MdnsResolverSet ℕ
shut = stop nat_eq (stop nat_eq (drain nat_eq (close nat_eq raced)) 1) 0

shut-Steps : Steps nat_eq (drain nat_eq (close nat_eq raced)) shut
unfolding upsert_race upsert_bound new drain close stop
shut-Steps = next (next here (stops 1 refl)) (stops 0 refl)

shutdown-stops_example :
    IsShut nat_eq shut
    × ((b : ℕ) → upsert_start nat_eq shut b ≡ is_closed)
    × ((r : ℕ)
        → count r (ids nat_eq shut.pending) + count r shut.retiring + count r shut.stopped
          ≡ one_if (ltb r shut.created))
shutdown-stops_example = shutdown-stops nat_eq raced shut raced-Steps shut-Steps

-- Of 5 and 6 only 6 is desired, and 7, which cannot be bound.
abbrev able : ℕ → Bool
able b = not (b == 7)

abbrev two : MdnsResolverSet ℕ
two = record {
  resolvers = (5, 0) ∷ (6, 1) ∷ [];
  closed = false;
  created = 2;
  pending = [];
  retiring = [];
  stopped = [];
}

two_reconciled : reconcile nat_eq able able two (6 ∷ 7 ∷ []) ≡ (
  record {
    resolvers = (6, 1) ∷ [];
    closed = false;
    created = 2;
    pending = [];
    retiring = 0 ∷ [];
    stopped = [];
  },
  bind_error 7 ∷ [],
)
unfolding reconcile retire upsert_all upsert upsert_start upsert_race upsert_bound remove
two_reconciled = refl

reconcile-outcome_example :
    is_some (get nat_eq 7 (reconcile nat_eq able able two (6 ∷ 7 ∷ [])).0.resolvers)
    ≡ contains nat_eq (6 ∷ 7 ∷ []) 7 && (is_some (get nat_eq 7 two.resolvers) || able 7)
reconcile-outcome_example = reconcile-outcome nat_eq able able two (6 ∷ 7 ∷ []) 7 refl

reconcile_keeps_example :
    get nat_eq 6 (reconcile nat_eq able able two (6 ∷ 7 ∷ [])).0.resolvers ≡ some 1
reconcile_keeps_example = reconcile_keeps nat_eq able able two (6 ∷ 7 ∷ []) 6 1 refl refl refl
