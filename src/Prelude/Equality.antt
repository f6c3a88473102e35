-- ===== src/Prelude/Equality.antt =====
-- Types whose values can be compared, as an interface, and lists searched by that comparison.
use mathlib.Core.Path.{◌≡◌, refl, sym, ap, ◌∙◌}
use mathlib.Core.Logic.{◌↔◌, inl, inr}
use mathlib.Core.Bool.{Bool, true, false, ◌||◌, ◌&&◌}
use mathlib.Core.List.{List, [], ◌∷◌, ◌++◌, map}
use mathlib.Core.Option.{Option, none, some}
use native.Mathlib.Omega.{arith}
use ddns.Prelude.Lists.{All, length}
use Prim.Native.Nat.{ℕ, ◌≤◌}
use ddns.Prelude.Tests.{if◌then◌else◌, Bool-cases, or-eq-false, and-eq-true, and-true, ◌==◌, ==_iff}

pub record Eq {ℓ} (A : Type ℓ) : Type ℓ where
  pub beq : A → A → Bool
  pub beq_iff : (a b : A) → (beq a b ≡ true) ↔ (a ≡ b)

abbrev pub nat_eq : Eq ℕ
nat_eq = record { beq = ◌==◌; beq_iff = ==_iff }

module _ {ℓ} {A : Type ℓ} where
  -- `Vec::retain`, `Iterator::filter`
  abbrev pub retain : (A → Bool) → List A → List A
  retain p [] = []
  retain p (x ∷ xs) = let rest = retain p xs in if p x then x ∷ rest else rest

  -- `Iterator::find`
  abbrev pub find : (A → Bool) → List A → Option A
  find p [] = none
  find p (x ∷ xs) = let rest = find p xs in if p x then some x else rest

  pub retain-append :
      (p : A → Bool) (xs ys : List A) → retain p (xs ++ ys) ≡ retain p xs ++ retain p ys
  retain-append p [] ys = refl
  retain-append p (x ∷ xs) ys = elim (Bool-cases (p x)) [
    | inl e ↦ rw (e, retain-append p xs ys)
    | inr e ↦ rw (e, retain-append p xs ys)
  ]

module _ {ℓ} {A : Type ℓ} (e : Eq A) where
  pub beq_refl : (a : A) → e.beq a a ≡ true
  beq_refl a = (e.beq_iff a a).1 refl

  pub beq_sym : (a b : A) → e.beq a b ≡ e.beq b a
  beq_sym a b = elim (Bool-cases (e.beq a b)) [
    | inl h ↦ rw (h, (e.beq_iff b a).1 (sym ((e.beq_iff a b).0 h)))
    | inr h ↦ elim (Bool-cases (e.beq b a)) [
      | inl k ↦ (e.beq_iff a b).1 (sym ((e.beq_iff b a).0 k)) ∙ sym k
      | inr k ↦ h ∙ sym k
    ]
  ]

  abbrev pub contains : List A → A → Bool
  contains [] a = false
  contains (x ∷ xs) a = e.beq x a || contains xs a

  abbrev pub Distinct : List A → Type 0
  Distinct [] = Unit {0}
  Distinct (x ∷ xs) = (contains xs x ≡ false) × Distinct xs

  pub contains-snoc :
      (ks : List A) (j k : A) → contains (ks ++ (j ∷ [])) k ≡ contains ks k || e.beq j k
  contains-snoc [] j k = ground arith
  contains-snoc (i ∷ ks) j k = ground (arith, contains-snoc ks j k)

  pub Distinct-snoc :
      (ks : List A) (k : A) → contains ks k ≡ false → Distinct ks → Distinct (ks ++ (k ∷ []))
  Distinct-snoc [] k gone h = (refl, tt)
  Distinct-snoc (i ∷ ks) k gone (n, h) =
      let (other, absent) = or-eq-false (e.beq i k) (contains ks k) gone in
      let apart : e.beq k i ≡ false = beq_sym k i ∙ other in
      (contains-snoc ks k i ∙ rw (n, apart), Distinct-snoc ks k absent h)

-- Two tests that are met by the same are equal.
pub Bool-ext : (a b : Bool) → (a ≡ true → b ≡ true) → (b ≡ true → a ≡ true) → a ≡ b
Bool-ext true b h k = sym (h refl)
Bool-ext false true h k = k refl
Bool-ext false false h k = refl

module _ {ℓ κ} {A : Type ℓ} (P : A → Type κ) where
  pub All-retain : (p : A → Bool) (xs : List A) → All P xs → All P (retain p xs)
  All-retain p [] h = tt
  All-retain p (x ∷ xs) (h, hs) = elim (Bool-cases (p x)) [
    | inl e ↦ rw e (h, All-retain p xs hs)
    | inr e ↦ rw e (All-retain p xs hs)
  ]

  pub All-snoc : (xs : List A) (x : A) → All P xs → P x → All P (xs ++ (x ∷ []))
  All-snoc [] x h k = (k, tt)
  All-snoc (y ∷ xs) x (h, hs) k = (h, All-snoc xs x hs k)

pub All-retain_self {ℓ} :
    {A : Type ℓ} (p : A → Bool) (xs : List A) → All (λ x. p x ≡ true) (retain p xs)
All-retain_self p [] = tt
All-retain_self p (x ∷ xs) = elim (Bool-cases (p x)) [
  | inl e ↦ rw e (e, All-retain_self p xs)
  | inr e ↦ rw e (All-retain_self p xs)
]

pub All-always {ℓ κ} : {A : Type ℓ} (P : A → Type κ) → ((x : A) → P x) → (xs : List A) → All P xs
All-always P h [] = tt
All-always P h (x ∷ xs) = (h x, All-always P h xs)

pub All-mono {ℓ κ μ} :
    {A : Type ℓ} (P : A → Type κ) (Q : A → Type μ)
    → ((x : A) → P x → Q x)
    → (xs : List A) → All P xs
    → All Q xs
All-mono P Q f [] h = tt
All-mono P Q f (x ∷ xs) (h, hs) = (f x h, All-mono P Q f xs hs)

pub All-map {ℓ κ μ} :
    {A : Type ℓ} {B : Type κ} (P : B → Type μ) (f : A → B) (xs : List A)
    → All (λ x. P (f x)) xs
    → All P (map f xs)
All-map P f [] h = tt
All-map P f (x ∷ xs) (h, hs) = (h, All-map P f xs hs)

pub length-retain {ℓ} : {A : Type ℓ} (p : A → Bool) (xs : List A) → length (retain p xs) ≤ length xs
length-retain p [] = omega arith
length-retain p (x ∷ xs) = elim (Bool-cases (p x)) [
  | inl e ↦ rw e (omega (arith, length-retain p xs))
  | inr e ↦ rw e (omega (arith, length-retain p xs))
]

abbrev pub pair_eq {ℓ κ} : {A : Type ℓ} {B : Type κ} → Eq A → Eq B → Eq (A × B)
pair_eq e f = record {
  beq = λ p q. e.beq p.0 q.0 && f.beq p.1 q.1;
  beq_iff = λ p q. (
    λ h.
        let (first, second) = and-eq-true (e.beq p.0 q.0) (f.beq p.1 q.1) h in
        λ i. ((e.beq_iff p.0 q.0).0 first i, (f.beq_iff p.1 q.1).0 second i),
    λ same.
        and-true (e.beq p.0 q.0) (f.beq p.1 q.1) ((e.beq_iff p.0 q.0).1 (ap (λ r. r.0) same))
          ((f.beq_iff p.1 q.1).1 (ap (λ r. r.1) same)),
  );
}
