-- ===== src/Prelude/Unions.antt =====
-- Lists without repetition: parts and unions of them.
use mathlib.Core.Path.{◌≡◌, refl, ap, ◌∙◌}
use mathlib.Core.Logic.{inl, inr}
use mathlib.Core.Bool.{Bool, true, false, ◌||◌, ◌&&◌, not}
use mathlib.Core.List.{List, [], ◌∷◌, ◌++◌, map}
use native.Mathlib.Omega.{arith}
use ddns.Prelude.Lists.{All, take}
use Prim.Native.Nat.{ℕ, zero, suc}
use ddns.Prelude.Tests.{Bool-cases, or-eq-false}
use ddns.Prelude.Equality.{Eq, retain, contains, Distinct, beq_refl}

-- A part of a list of things with distinct keys has distinct keys.
module _ {ℓ κ} {A : Type ℓ} {B : Type κ} (e : Eq A) (f : B → A) where
  contains-map-retain :
      (p : B → Bool) (xs : List B) (a : A)
      → contains e (map f xs) a ≡ false
      → contains e (map f (retain p xs)) a ≡ false
  contains-map-retain p [] a h = h
  contains-map-retain p (x ∷ xs) a h =
      let (other, absent) = or-eq-false (e.beq (f x) a) (contains e (map f xs) a) h in
      elim (Bool-cases (p x)) [
        | inl k ↦ rw (k, other) (contains-map-retain p xs a absent)
        | inr k ↦ rw k (contains-map-retain p xs a absent)
      ]

  pub Distinct-map-retain :
      (p : B → Bool) (xs : List B) → Distinct e (map f xs) → Distinct e (map f (retain p xs))
  Distinct-map-retain p [] h = tt
  Distinct-map-retain p (x ∷ xs) (h, hs) = elim (Bool-cases (p x)) [
    | inl k ↦ rw k (contains-map-retain p xs (f x) h, Distinct-map-retain p xs hs)
    | inr k ↦ rw k (Distinct-map-retain p xs hs)
  ]

  contains-map-take :
      (n : ℕ) (xs : List B) (a : A)
      → contains e (map f xs) a ≡ false
      → contains e (map f (take n xs)) a ≡ false
  contains-map-take zero xs a h = refl
  contains-map-take (suc n) [] a h = refl
  contains-map-take (suc n) (x ∷ xs) a h =
      let (other, absent) = or-eq-false (e.beq (f x) a) (contains e (map f xs) a) h in
      rw other (contains-map-take n xs a absent)

  pub Distinct-map-take :
      (n : ℕ) (xs : List B) → Distinct e (map f xs) → Distinct e (map f (take n xs))
  Distinct-map-take zero xs h = tt
  Distinct-map-take (suc n) [] h = tt
  Distinct-map-take (suc n) (x ∷ xs) (h, hs) =
      (contains-map-take n xs (f x) h, Distinct-map-take n xs hs)

pub All-both {ℓ κ μ} :
    {A : Type ℓ} (P : A → Type κ) (Q : A → Type μ) (xs : List A)
    → All P xs
    → All Q xs
    → All (λ x. P x × Q x) xs
All-both P Q [] h k = tt
All-both P Q (x ∷ xs) (h, hs) (k, ks) = ((h, k), All-both P Q xs hs ks)

module _ {ℓ} {A : Type ℓ} (e : Eq A) where
  pub contains-append :
      (xs ys : List A) (a : A) → contains e (xs ++ ys) a ≡ contains e xs a || contains e ys a
  contains-append [] ys a = refl
  contains-append (x ∷ xs) ys a = ground (arith, contains-append xs ys a)

  -- What is new is added: the union.
  pub contains-retain :
      (p : A → Bool) (xs : List A) (a : A) → contains e (retain p xs) a ≡ contains e xs a && p a
  contains-retain p [] a = refl
  contains-retain p (x ∷ xs) a = elim (Bool-cases (p x)) [
    | inl k ↦ elim (Bool-cases (e.beq x a)) [
      | inl same ↦ ground (arith, k, same, ap p ((e.beq_iff x a).0 same))
      | inr other ↦ rw (k, other) (contains-retain p xs a)
    ]
    | inr k ↦ elim (Bool-cases (e.beq x a)) [
      | inl same ↦ ground (arith, contains-retain p xs a, ap p ((e.beq_iff x a).0 same))
      | inr other ↦ rw (k, other) (contains-retain p xs a)
    ]
  ]

  abbrev pub union : List A → List A → List A
  union xs ys = xs ++ retain (λ y. not (contains e xs y)) ys

  pub contains-union :
      (xs ys : List A) (a : A) → contains e (union xs ys) a ≡ contains e xs a || contains e ys a
  contains-union xs ys a = ground (
    arith,
    contains-append xs (retain (λ y. not (contains e xs y)) ys) a,
    contains-retain (λ y. not (contains e xs y)) ys a,
  )

  Distinct-retain : (p : A → Bool) (xs : List A) → Distinct e xs → Distinct e (retain p xs)
  Distinct-retain p [] h = tt
  Distinct-retain p (x ∷ xs) (h, hs) = elim (Bool-cases (p x)) [
    | inl k ↦ rw k (ground (arith, contains-retain p xs x), Distinct-retain p xs hs)
    | inr k ↦ rw k (Distinct-retain p xs hs)
  ]

  Distinct-append :
      (xs ys : List A)
      → Distinct e xs
      → Distinct e ys
      → ((a : A) → contains e xs a ≡ true → contains e ys a ≡ false)
      → Distinct e (xs ++ ys)
  Distinct-append [] ys h k apart = k
  Distinct-append (x ∷ xs) ys (h, hs) k apart = (
    contains-append xs ys x ∙ rw (h, apart x (ground (arith, beq_refl e x))),
    Distinct-append xs ys hs k (λ a i. apart a (ground (arith, i))),
  )

  pub Distinct-union : (xs ys : List A) → Distinct e xs → Distinct e ys → Distinct e (union xs ys)
  Distinct-union xs ys h k =
      Distinct-append xs (retain (λ y. not (contains e xs y)) ys) h (Distinct-retain _ ys k)
        (λ a i. ground (arith, contains-retain (λ y. not (contains e xs y)) ys a))
