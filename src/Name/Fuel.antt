-- ===== src/Name/Fuel.antt =====
-- The parser ends on every input: its fuel is never used up, since no offset is followed twice.
use Prim.Native.Nat.{bit_and, bit_or}
use ddns.Prelude.{
  ℕ, zero, suc, ◌+◌, ◌*◌, ◌^◌, ◌≤◌, ◌<◌, ◌≡◌, ◌≢◌, refl, arith, Bool, true, false, ◌||◌, inl, inr,
}
use ddns.Prelude.{
  List, [], ◌∷◌, length, length-drop, drop, leb, ltb, ◌==◌, if◌then◌else◌, Bool-cases, ==_iff,
  mul_mono, or-eq-false,
}
use ddns.Bytes.{
  ByteIo, IsByteIo, IResult, ok, err, stuck, ◌>>=◌, read_be, read_take, length-read_take,
  length-read_be,
}
use ddns.Bytes.Standard.{standard, of_standard}
use ddns.Name.Defs.{Name, dot, join, contains, be_name_labels, labels_fuel, be_name}

-- How many offsets below `n` may still be followed.
pub free : ℕ → List ℕ → ℕ
free zero visited = 0
free (suc n) visited = (if contains visited n then 0 else 1) + free n visited

pub free-le : (n : ℕ) (visited : List ℕ) → free n visited ≤ n
unfolding free
free-le zero visited = omega arith
free-le (suc n) visited = ground (arith, free-le n visited)

free-push-le : (n o : ℕ) (visited : List ℕ) → free n (o ∷ visited) ≤ free n visited
unfolding free
free-push-le zero o visited = omega arith
free-push-le (suc n) o visited = ground (arith, free-push-le n o visited)

free-push-lt :
    (n o : ℕ) (visited : List ℕ)
    → o < n
    → contains visited o ≡ false
    → free n (o ∷ visited) < free n visited
unfolding free
free-push-lt zero o visited h new = absurd (omega arith)
free-push-lt (suc n) o visited h new = elim (Bool-cases (o == n)) [
  | inl e ↦
      let same : o ≡ n = (==_iff o n).0 e in
      ground (arith, free-push-le n o visited, rw same at new)
  | inr e ↦ ground (arith, free-push-lt n o visited)
]

abbrev NotStuck {ℓ} : {A : Type ℓ} → IResult A → Type ℓ
NotStuck r = r ≢ err stuck

bind-NotStuck {ℓ} :
    {A B : Type ℓ} (r : IResult A) (f : List ℕ × A → IResult B)
    → NotStuck r
    → ((remain : List ℕ) (a : A) → r ≡ ok (remain, a) → NotStuck (f (remain, a)))
    → NotStuck (r >>= f)
bind-NotStuck (ok (remain, a)) f h k = k remain a refl
bind-NotStuck (err e) f h k = λ p. h (cc)

if-NotStuck {ℓ} :
    {A : Type ℓ} (b : Bool) {x y : IResult A}
    → (b ≡ true → NotStuck x)
    → (b ≡ false → NotStuck y)
    → NotStuck (if b then x else y)
if-NotStuck true h k = h refl
if-NotStuck false h k = k refl

read_take-NotStuck : (n : ℕ) (s : List ℕ) → NotStuck (read_take n s)
unfolding read_take
read_take-NotStuck zero s = λ p. cc
read_take-NotStuck (suc n) [] = λ p. cc
read_take-NotStuck (suc n) (x ∷ s) =
    bind-NotStuck (read_take n s) _ (read_take-NotStuck n s) (λ r a e p. cc)

read_be-NotStuck : (n : ℕ) (s : List ℕ) → NotStuck (read_be n s)
unfolding read_be
read_be-NotStuck n s = bind-NotStuck (read_take n s) _ (read_take-NotStuck n s) (λ r a e p. cc)

abbrev pub measure : List ℕ → List ℕ → List ℕ → ℕ
measure input origin visited = free (length origin) visited * (length origin + 2) + length input + 1

measure_room : (f g l a b : ℕ) → f < g → a ≤ l → f * (l + 2) + a + 1 < g * (l + 2) + b + 1
measure_room f g l a b h k = grind arith

-- Following a pointer that the parser admits.
pub push_measure :
    (origin visited input : List ℕ) (offset fuel : ℕ)
    → leb (length origin) offset || contains visited offset ≡ false
    → measure input origin visited ≤ suc fuel
    → measure (drop offset origin) origin (offset ∷ visited) ≤ fuel
push_measure origin visited input offset fuel new h =
    let (inside, fresh) = or-eq-false (leb (length origin) offset) (contains visited offset) new in
    let fewer = free-push-lt (length origin) offset visited (ground arith) fresh in
    omega (
      arith,
      measure_room (free (length origin) (offset ∷ visited)) (free (length origin) visited)
          (length origin) (length (drop offset origin)) (length input) fewer
          (omega (arith, length-drop offset origin)),
    )

labels-NotStuck :
    (fuel : ℕ) (input origin visited : List ℕ)
    → measure input origin visited ≤ fuel
    → NotStuck (be_name_labels standard fuel input origin visited)
unfolding be_name_labels
labels-NotStuck zero input origin visited h = absurd (omega arith)
labels-NotStuck (suc fuel) input origin visited h =
    bind-NotStuck (read_be 1 input) _ (read_be-NotStuck 1 input) λ s len first.
      if-NotStuck (len == 0) (λ _ p. cc)
        λ _.
          if-NotStuck (bit_and len 0xc0 == 0xc0)
            (λ _. bind-NotStuck (read_be 1 s) _ (read_be-NotStuck 1 s) λ remain offset_byte second.
              let offset : ℕ = bit_or (bit_and len 0x3f * 2 ^ 8) offset_byte in
              if-NotStuck (leb (length origin) offset || contains visited offset) (λ _ p. cc)
                λ new.
                  bind-NotStuck
                    (be_name_labels standard fuel (drop offset origin) origin (offset ∷ visited)) _
                    (labels-NotStuck fuel (drop offset origin) origin (offset ∷ visited)
                      (push_measure origin visited input offset fuel new h))
                    (λ _ _ _ p. cc))
            λ _.
              if-NotStuck (ltb 63 len) (λ _ p. cc)
                λ _.
                  bind-NotStuck (read_take len s) _ (read_take-NotStuck len s)
                    λ remain label_bytes third.
                      bind-NotStuck (be_name_labels standard fuel remain origin visited) _
                        (labels-NotStuck fuel remain origin visited (
                          omega
                            (arith, length-read_be 1 input first, length-read_take len s third)))
                        (λ _ _ _ p. cc)

pub enough_fuel : (input origin : List ℕ) → measure input origin [] ≤ labels_fuel input origin
enough_fuel input origin =
    omega (arith, mul_mono _ _ (length origin + 2) (free-le (length origin) []))

names-NotStuck :
    (remain : List ℕ) (labels : List Name)
    → NotStuck {A = Name} (elim labels [
      | [] ↦ ok (remain, dot ∷ [])
      | label ∷ more ↦ ok (remain, join (label ∷ more))
    ])
names-NotStuck remain [] = λ p. cc
names-NotStuck remain (label ∷ more) = λ p. cc

name-NotStuck : (input origin : List ℕ) → NotStuck (be_name standard input origin)
unfolding be_name
name-NotStuck input origin =
    bind-NotStuck (be_name_labels standard (labels_fuel input origin) input origin []) _
      (labels-NotStuck (labels_fuel input origin) input origin [] (enough_fuel input origin))
      λ remain labels e. names-NotStuck remain labels

-- Through every byte interface that keeps its laws, `be_name` ends on every input and every
-- message, with cycles of pointers among them: the model's fuel is never used up.
pub be_name-ne-stuck :
    (io : ByteIo) → IsByteIo io → (input origin : List ℕ) → be_name io input origin ≢ err stuck
be_name-ne-stuck io laws input origin =
    of_standard (λ io. be_name io input origin ≢ err stuck) laws (name-NotStuck input origin)
