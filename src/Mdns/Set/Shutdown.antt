-- ===== src/Mdns/Set/Shutdown.antt =====
-- `shutdown` while other tasks are at work.
use ddns.Prelude.{ℕ, ◌+◌, ◌≡◌, refl, sym, subst, ap, true, arith, ltb, Eq, [], none}
use ddns.Mdns.Set.Defs.{
  MdnsResolverSet, is_closed, new, get, upsert_start, upsert_bound, remove, close, drain, stop,
}
use ddns.Mdns.Set.Interleaved.{
  Step, binds, races, removes, closes, drains, stops, Steps, here, next, IsResolverSet,
  Step-IsResolverSet, Steps-IsResolverSet, race_closed, drain-IsResolverSet,
  Steps-new-IsResolverSet, one_if, count, ids,
}

module _ {Binding : Type 0} (binding_eq : Eq Binding) where
  abbrev pub IsShut : MdnsResolverSet Binding → Type 0
  IsShut s = (s.closed ≡ true) × (s.resolvers ≡ [])

  Step-IsShut : {s t : MdnsResolverSet Binding} → Step binding_eq s t → IsShut s → IsShut t
  unfolding upsert_bound remove close drain stop
  Step-IsShut (binds b) h = h
  Step-IsShut {s} (races b r held) (closed, none_) =
      subst IsShut (sym (race_closed binding_eq s b r closed)) (closed, none_)
  Step-IsShut {s} (removes b) (closed, none_) =
      let nothing : get binding_eq b s.resolvers ≡ none = ap (get binding_eq b) none_ in
      let same : (remove binding_eq s b).0 ≡ s = rw (remove, nothing) in
      subst IsShut (sym same) (closed, none_)
  Step-IsShut closes h = (refl, h.1)
  Step-IsShut (drains e) h = (h.0, refl)
  Step-IsShut (stops r held) h = h

  Steps-IsShut : {s t : MdnsResolverSet Binding} → IsShut s → Steps binding_eq s t → IsShut t
  Steps-IsShut h here = h
  Steps-IsShut h (next r st) = Step-IsShut st (Steps-IsShut h r)

  -- When `shutdown` has closed and drained a set, then after any steps of the tasks that are still at work
  -- the set is closed and its map is empty, every `upsert` is refused, and each resolver that was created is
  -- in one place and once: with the `upsert` that bound it, on its way to its `shutdown`, or stopped. So
  -- all are stopped when no task has a candidate and every `shutdown` that is called has run.
  pub shutdown-stops :
      (s t : MdnsResolverSet Binding)
      → Steps binding_eq (new binding_eq) s
      → Steps binding_eq (drain binding_eq (close binding_eq s)) t
      → IsShut t
        × ((b : Binding) → upsert_start binding_eq t b ≡ is_closed)
        × ((r : ℕ)
            → count r (ids binding_eq t.pending) + count r t.retiring + count r t.stopped
              ≡ one_if (ltb r t.created))
  unfolding close drain upsert_start
  shutdown-stops s t before after =
      let shut : IsShut t =
        Steps-IsShut {s = drain binding_eq (close binding_eq s)} (refl, refl) after in
      let all_there : IsResolverSet binding_eq t =
        Steps-IsResolverSet binding_eq
          (drain-IsResolverSet binding_eq (close binding_eq s)
            (Step-IsResolverSet binding_eq closes (Steps-new-IsResolverSet binding_eq before)))
          after in
      (
        shut,
        λ b. rw (upsert_start, shut.0),
        λ r. omega (arith, all_there.each_once r, ap (λ rs. count r (ids binding_eq rs)) shut.1),
      )
