-- ===== src/Mdns/Set/Lookups.antt =====
-- What `get` answers after a binding is removed from the map, and tests of optional resolvers.
use ddns.Prelude.{
  ℕ, ◌≡◌, refl, sym, ap, subst, ◌∙◌, Bool, true, false, not, ◌&&◌, ◌||◌, Bool-cases, inl, inr,
  arith, if◌then◌else◌, Eq, contains, beq_sym,
}
use ddns.Prelude.{List, [], ◌∷◌, map, Option, none, some, Option-cases}
use ddns.Mdns.Set.Defs.{MdnsResolverSet, get, without, remove}

abbrev pub is_some : Option ℕ → Bool
is_some (some r) = true
is_some none = false

pub or-false : (x : Bool) → x ≡ x || false
or-false x = ground arith

pub or-true : (x : Bool) → true ≡ x || true
or-true x = ground arith

pub only_desired :
    (d : Bool) (o : Option ℕ) → (if is_some o && not d then none else o) ≡ (if d then o else none)
only_desired true none = refl
only_desired false none = refl
only_desired true (some r) = refl
only_desired false (some r) = refl

pub wanted :
    (d c : Bool) (o : Option ℕ)
    → is_some (if d then o else none) || (d && c) ≡ d && (is_some o || c)
wanted true c o = refl
wanted false c o = refl

module _ {Binding : Type 0} (binding_eq : Eq Binding) where
  pub get-without :
      (b c : Binding) (rs : List (Binding × ℕ))
      → get binding_eq b (without binding_eq c rs)
        ≡ (if binding_eq.beq c b then none else get binding_eq b rs)
  get-without b c [] = ground arith
  get-without b c ((d, r) ∷ rs) = elim (Bool-cases (binding_eq.beq d c)) [
    | inl e ↦
        let alike : binding_eq.beq d b ≡ binding_eq.beq c b =
          ap (λ x. binding_eq.beq x b) ((binding_eq.beq_iff d c).0 e) in
        rw (e, get-without b c rs, alike) (ground arith)
    | inr e ↦ elim (Bool-cases (binding_eq.beq d b)) [
      | inl k ↦
          let apart : binding_eq.beq c b ≡ false =
            ap (binding_eq.beq c) (sym ((binding_eq.beq_iff d b).0 k))
            ∙ beq_sym binding_eq c d
            ∙ e in
          rw (e, k, apart)
      | inr k ↦ rw (e, k) (get-without b c rs)
    ]
  ]

  pub unchanged :
      (s : MdnsResolverSet Binding) (b c : Binding)
      → get binding_eq c s.resolvers ≡ none
      → get binding_eq b s.resolvers
        ≡ (if binding_eq.beq c b then none else get binding_eq b s.resolvers)
  unchanged s b c missing = elim (Bool-cases (binding_eq.beq c b)) [
    | inl e ↦
        rw e
          (subst (λ x. get binding_eq x s.resolvers ≡ none) ((binding_eq.beq_iff c b).0 e) missing)
    | inr e ↦ rw e
  ]

  pub get-remove :
      (s : MdnsResolverSet Binding) (b c : Binding)
      → get binding_eq b (remove binding_eq s c).0.resolvers
        ≡ (if binding_eq.beq c b then none else get binding_eq b s.resolvers)
  unfolding remove
  get-remove s b c = elim (Option-cases (get binding_eq c s.resolvers)) [
    | inl missing ↦
        let same : (remove binding_eq s c).0 ≡ s = rw (remove, missing) in
        ap (λ t. get binding_eq b t.resolvers) same ∙ unchanged s b c missing
    | inr (r, held) ↦
        let removed : (remove binding_eq s c).0
            ≡ record s { resolvers = without binding_eq c s.resolvers; retiring = r ∷ s.retiring } =
          rw (remove, held) in
        ap (λ t. get binding_eq b t.resolvers) removed ∙ get-without b c s.resolvers
  ]

  pub remove_closed :
      (s : MdnsResolverSet Binding) (c : Binding) → (remove binding_eq s c).0.closed ≡ s.closed
  unfolding remove
  remove_closed s c = elim (Option-cases (get binding_eq c s.resolvers)) [
    | inl e ↦ rw (remove, e)
    | inr (r, e) ↦ rw (remove, e)
  ]

  pub contains-keys :
      (b : Binding) (rs : List (Binding × ℕ))
      → contains binding_eq (map (λ (b, r). b) rs) b ≡ is_some (get binding_eq b rs)
  contains-keys b [] = refl
  contains-keys b ((c, r) ∷ rs) = elim (Bool-cases (binding_eq.beq c b)) [
    | inl e ↦ rw e
    | inr e ↦ rw e (contains-keys b rs)
  ]
