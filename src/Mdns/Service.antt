-- ===== src/Mdns/Service.antt =====
-- src/mdns/service.rs: a query to one resolver. The transport, which is the answer of `MdnsProtocol` to a
-- name, the address of an endpoint and the suffix of the crate dhttp_home are parameters.
mod Tests
use ddns.Prelude.{
  ◌||◌, ℕ, zero, suc, ◌+◌, ◌≡◌, refl, sym, ap, subst, ◌∙◌, Bool, true, false, Bool-cases,
  Option-cases, inl, inr, arith, if◌then◌else◌, ◌==◌, nat_eq, beq_refl,
}
use ddns.Prelude.{List, [], ◌∷◌, ◌++◌, Option, none, some}
use mathlib.Core.Option.{some-injective, none-ne-some}
use ddns.Name.{Name, dot}
use ddns.Name.Defs.{name_eq}
use ddns.LookupCache.{to_ascii_lowercase, trim_end_dots}

abbrev onto_prefix : ℕ → Option Name → Option Name
onto_prefix c none = none
onto_prefix c (some s) = some (c ∷ s)

unfoldable pub strip_suffix : Name → Name → Option Name
strip_suffix suffix [] = if name_eq [] suffix then some [] else none
strip_suffix suffix (c ∷ cs) =
    let rest = strip_suffix suffix cs in
    if name_eq (c ∷ cs) suffix then some [] else onto_prefix c rest

unfoldable pub local_name : Name → Name → Name → Name
local_name dhttp_suffix service_name name = elim (strip_suffix dhttp_suffix name) [
  | some pre ↦ pre ++ (dot ∷ service_name)
  | none ↦ name
]

pub data QueryResult (A : Type 0) : Type 0 where
  is_shut_down query_failed empty_result : QueryResult A
  endpoints_are : List A → QueryResult A

abbrev later : Option ℕ → Option ℕ
later none = none
later (some i) = some (suc i)

module _ {A : Type 0} where
  -- `iter().position`
  unfoldable pub position : (A → Bool) → List A → Option ℕ
  position p [] = none
  position p (a ∷ xs) = let found = position p xs in if p a then some 0 else later found

  abbrev behind : A → Option (A × List A) → Option (A × List A)
  behind a none = none
  behind a (some (b, xs)) = some (b, a ∷ xs)

  -- What stood at an index, and the list with another element there.
  unfoldable pub replace_at : List A → ℕ → A → Option (A × List A)
  replace_at [] i b = none
  replace_at (a ∷ xs) zero b = some (a, b ∷ xs)
  replace_at (a ∷ xs) (suc i) b = behind a (replace_at xs i b)

  -- `swap(0, index)`; a panic is a `none`.
  unfoldable pub swap_first : List A → ℕ → Option (List A)
  swap_first [] i = none
  swap_first (a ∷ xs) zero = some (a ∷ xs)
  swap_first (a ∷ xs) (suc i) = elim (replace_at xs i a) [
    | none ↦ none
    | some (b, bs) ↦ some (b ∷ bs)
  ]

  unfoldable pub reorder : (A → Bool) → List A → Option (List A)
  reorder p xs = elim (position p xs) [ none ↦ some xs | some i ↦ swap_first xs i ]

  abbrev answered : List A → QueryResult A
  answered [] = empty_result
  answered (a ∷ xs) = endpoints_are (a ∷ xs)

  -- A protocol answers a name with the source and its endpoints; there is none after the shutdown.
  unfoldable pub query_domain :
      {Address : Type 0}
      → (Address → A → Bool)
      → Name
      → Name
      → Option (Name → Option (Address × List A))
      → Name
      → Option (QueryResult A)
  query_domain is_from dhttp_suffix service_name none domain = some is_shut_down
  query_domain is_from dhttp_suffix service_name (some proto) domain =
      elim (proto
        (local_name dhttp_suffix service_name (to_ascii_lowercase (trim_end_dots domain)))) [
          | none ↦ some query_failed
          | some (source, endpoints) ↦ elim (reorder (is_from source) endpoints) [
            | none ↦ none
            | some xs ↦ some (answered xs)
          ]
        ]

  abbrev pub count_if : (A → Bool) → List A → ℕ
  count_if q [] = 0
  count_if q (a ∷ xs) = (if q a then 1 else 0) + count_if q xs

  replaced :
      (p : A → Bool) (a : A) (xs : List A) (i : ℕ)
      → position p xs ≡ some i
      → (b : A) × (bs : List A) × (replace_at xs i a ≡ some (b, bs))
        × (p b ≡ true)
        × ((q : A → Bool) → count_if q (b ∷ bs) ≡ count_if q (a ∷ xs))
  unfolding position replace_at
  replaced p a [] i h = absurd (none-ne-some i h)
  replaced p a (c ∷ cs) i h = elim (Bool-cases (p c)) [
    | inl found ↦
        subst
          (λ j.
            (b : A) × (bs : List A) × (replace_at (c ∷ cs) j a ≡ some (b, bs))
            × (p b ≡ true)
            × ((q : A → Bool) → count_if q (b ∷ bs) ≡ count_if q (a ∷ c ∷ cs)))
          (some-injective 0 i (sym (rw (position, found)) ∙ h))
          (c, a ∷ cs, refl, found, λ q. omega arith)
    | inr not_here ↦ elim (Option-cases (position p cs)) [
      | inl nowhere ↦ absurd (none-ne-some i (sym (rw (position, not_here, nowhere)) ∙ h))
      | inr (j, there) ↦
          let (b, bs, e, found, counts) = replaced p a cs j there in
          subst
            (λ k.
              (b : A) × (bs : List A) × (replace_at (c ∷ cs) k a ≡ some (b, bs))
              × (p b ≡ true)
              × ((q : A → Bool) → count_if q (b ∷ bs) ≡ count_if q (a ∷ c ∷ cs)))
            (some-injective (suc j) i (sym (rw (position, not_here, there)) ∙ h))
            (b, c ∷ bs, rw (e), found, λ q. omega (arith, counts q))
    ]
  ]

  abbrev pub any : (A → Bool) → List A → Bool
  any p [] = false
  any p (x ∷ xs) = p x || any p xs

  position-none : (p : A → Bool) (xs : List A) → position p xs ≡ none → any p xs ≡ false
  unfolding position
  position-none p [] h = refl
  position-none p (x ∷ xs) h = elim (Bool-cases (p x)) [
    | inl found ↦ absurd (none-ne-some 0 (sym h ∙ rw (position, found)))
    | inr not_here ↦ elim (Option-cases (position p xs)) [
      | inl nowhere ↦ rw (not_here) (position-none p xs nowhere)
      | inr (j, there) ↦ absurd (none-ne-some (suc j) (sym h ∙ rw (position, not_here, there)))
    ]
  ]

  position-some : (p : A → Bool) (xs : List A) (i : ℕ) → position p xs ≡ some i → any p xs ≡ true
  unfolding position
  position-some p [] i h = absurd (none-ne-some i h)
  position-some p (x ∷ xs) i h = elim (Bool-cases (p x)) [
    | inl found ↦ rw (found)
    | inr not_here ↦ elim (Option-cases (position p xs)) [
      | inl nowhere ↦ absurd (none-ne-some i (sym (rw (position, not_here, nowhere)) ∙ h))
      | inr (j, there) ↦ rw (not_here) (position-some p xs j there)
    ]
  ]

  swap_later :
      (x : A) (xs : List A) (i : ℕ) (b : A) (bs : List A)
      → replace_at xs i x ≡ some (b, bs)
      → swap_first (x ∷ xs) (suc i) ≡ some (b ∷ bs)
  unfolding swap_first
  swap_later x xs i b bs e = rw (swap_first, e)

  -- What `reorder` makes of endpoints that are not empty.
  reordered :
      (p : A → Bool) (x : A) (xs : List A)
      → (b : A) × (bs : List A) × (reorder p (x ∷ xs) ≡ some (b ∷ bs))
        × (p b ≡ any p (x ∷ xs))
        × ((q : A → Bool) → count_if q (b ∷ bs) ≡ count_if q (x ∷ xs))
  unfolding reorder swap_first position
  reordered p x xs = elim (Bool-cases (p x)) [
    | inl found ↦ (x, xs, rw (reorder, found), rw (found), λ q. refl)
    | inr not_here ↦ elim (Option-cases (position p xs)) [
      | inl nowhere ↦ (
        x,
        xs,
        rw (reorder, not_here, nowhere),
        rw (not_here, position-none p xs nowhere),
        λ q. refl,
      )
      | inr (i, there) ↦
          let (b, bs, e, found, counts) = replaced p x xs i there in
          (
            b,
            bs,
            rw (reorder, not_here, there) (swap_later x xs i b bs e),
            found ∙ sym (rw (not_here) (position-some p xs i there)),
            counts,
          )
    ]
  ]

  -- When the protocol answers with endpoints, a query succeeds with the same ones, each as often, and the
  -- first is from the address that answered just when one of them is.
  pub query_domain-local_name :
      {Address : Type 0}
      → (is_from : Address → A → Bool) → (dhttp_suffix service_name : Name)
      → (proto : Name → Option (Address × List A))
      → (domain : Name) (source : Address) (x : A) (xs : List A)
      → proto (local_name dhttp_suffix service_name (to_ascii_lowercase (trim_end_dots domain)))
        ≡ some (source, x ∷ xs)
      → (b : A) × (bs : List A) × (query_domain is_from dhttp_suffix service_name
            (some proto)
            domain
          ≡ some (endpoints_are (b ∷ bs)))
        × (is_from source b ≡ any (is_from source) (x ∷ xs))
        × ((q : A → Bool) → count_if q (b ∷ bs) ≡ count_if q (x ∷ xs))
  unfolding query_domain
  query_domain-local_name is_from dhttp_suffix service_name proto domain source x xs answers =
      let (b, bs, e, first, counts) = reordered (is_from source) x xs in
      (b, bs, rw (answers, e), first, counts)
