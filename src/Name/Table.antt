-- ===== src/Name/Table.antt =====
-- The invariant of the compression table: every suffix is spelled in the message at its offset.
use ddns.Prelude.{ℕ, ◌^◌, ◌<◌, ◌≡◌, refl, arith, true, ◌⊎◌, inl, inr, ◌↔◌}
use ddns.Prelude.{
  List, [], ◌∷◌, ◌++◌, none, some, length, length-append, drop, Bool-cases, drop-append_le,
}
use ddns.Name.Defs.{Name, NameCompression, join, name_eq, get_suffix_offset, remember_suffix}
use ddns.Name.Spells.{Spells, Spells-append}

pub record IsEntry (buf : List ℕ) (suffix : Name) (offset : ℕ) : Type 0 where
  pub inside : offset < length buf
  pub narrow : offset < 2 ^ 14
  pub first : Name
  pub others : List Name
  pub rest : List ℕ
  pub key : suffix ≡ join (first ∷ others)
  pub spelled : Spells buf offset (drop offset buf) (first ∷ others) rest

abbrev pub IsTable : List ℕ → NameCompression → Type 0
IsTable buf ctx = (s : Name) (t : ℕ) → get_suffix_offset ctx s ≡ some t → IsEntry buf s t

-- A name inside a message is spelled there also when the message has grown.
pub Spells-grown :
    (buf : List ℕ) (t : ℕ) {labels : List Name} {rest : List ℕ} (more : List ℕ)
    → t < length buf
    → Spells buf t (drop t buf) labels rest
    → Spells (buf ++ more) t (drop t (buf ++ more)) labels (rest ++ more)
Spells-grown buf t more h d = rw (drop-append_le t buf more (omega arith)) (Spells-append more d)

pub IsEntry-append :
    {buf : List ℕ} {s : Name} {t : ℕ} (more : List ℕ) → IsEntry buf s t → IsEntry (buf ++ more) s t
IsEntry-append {buf} {s} {t} more e = record {
  inside = omega (arith, length-append {0} buf more, e.inside);
  narrow = e.narrow;
  first = e.first;
  others = e.others;
  rest = e.rest ++ more;
  key = e.key;
  spelled = Spells-grown buf t more e.inside e.spelled;
}

pub IsTable-append :
    {buf : List ℕ} (ctx : NameCompression) (more : List ℕ)
    → IsTable buf ctx
    → IsTable (buf ++ more) ctx
IsTable-append ctx more h s t e = IsEntry-append more (h s t e)

pub IsTable-nil : (buf : List ℕ) → IsTable buf []
unfolding get_suffix_offset
IsTable-nil buf s t e = absurd (cc)

pub name_eq_iff : (a b : Name) → (name_eq a b ≡ true) ↔ (a ≡ b)
unfolding name_eq
name_eq_iff [] [] = (λ h. refl, λ h. refl)
name_eq_iff [] (b ∷ bs) = (λ h. cc, λ h. cc)
name_eq_iff (a ∷ as') [] = (λ h. cc, λ h. cc)
name_eq_iff (a ∷ as') (b ∷ bs) = ground (arith, name_eq_iff as' bs)

remember_new :
    (ctx : NameCompression) (suffix : Name) (offset : ℕ)
    → get_suffix_offset ctx suffix ≡ none
    → remember_suffix ctx suffix offset ≡ (suffix, offset) ∷ ctx
unfolding remember_suffix
remember_new ctx suffix offset e = rw (e, remember_suffix)

get_cons :
    (ctx : NameCompression) (suffix s : Name) (offset t : ℕ)
    → get_suffix_offset ((suffix, offset) ∷ ctx) s ≡ some t
    → ((suffix ≡ s) × (t ≡ offset)) ⊎ (get_suffix_offset ctx s ≡ some t)
unfolding get_suffix_offset
get_cons ctx suffix s offset t h = elim (Bool-cases (name_eq suffix s)) [
  | inl same ↦ inl ((name_eq_iff suffix s).0 same, ground (arith, same, h))
  | inr other ↦ inr (ground (arith, other, h))
]

-- What the table holds after `remember_suffix` for a suffix that it did not hold.
pub get-remember :
    (ctx : NameCompression) (suffix s : Name) (offset t : ℕ)
    → get_suffix_offset ctx suffix ≡ none
    → get_suffix_offset (remember_suffix ctx suffix offset) s ≡ some t
    → ((suffix ≡ s) × (t ≡ offset)) ⊎ (get_suffix_offset ctx s ≡ some t)
get-remember ctx suffix s offset t e =
    rw (remember_new ctx suffix offset e) (get_cons ctx suffix s offset t)
