-- ===== src/Bytes/BigEndian.antt =====
-- Numbers in network byte order, and the streaming readers that the laws of `ByteIo` name.
use ddns.Prelude.{subst, append-nil}
use ddns.Prelude.{
  ℕ, zero, suc, ◌+◌, ◌-◌, ◌*◌, ◌/◌, ◌%◌, ◌^◌, ◌<◌, ◌≡◌, refl, ◌∙◌, ap, inl, inr, arith,
}
use ddns.Prelude.{List, [], ◌∷◌, ◌++◌, length, length-append, replicate}
use ddns.Prelude.{All, All-append}
use ddns.Bytes.Result.{IResult, ok, err, incomplete, ◌>>=◌, IResult-cases}
use native.Mathlib.Nat.{pow-suc}

-- The lowest `k` bytes of `v`, highest first.
unfoldable pub be_bytes : ℕ → ℕ → List ℕ
be_bytes zero v = []
be_bytes (suc k) v = be_bytes k (v / 256) ++ ((v % 256) ∷ [])

unfoldable pub from_be_acc : ℕ → List ℕ → ℕ
from_be_acc acc [] = acc
from_be_acc acc (b ∷ bs) = from_be_acc (acc * 256 + b) bs

unfoldable pub from_be : List ℕ → ℕ
unfolding from_be_acc
from_be bs = from_be_acc 0 bs

-- The first `n` bytes and the rest, or a request for those that are missing.
unfoldable pub read_take : ℕ → List ℕ → IResult (List ℕ)
read_take zero s = ok (s, [])
read_take (suc n) [] = err (incomplete (suc n))
read_take (suc n) (x ∷ s) = do (remain, xs) ← read_take n s; ok (remain, x ∷ xs)

unfoldable pub read_be : ℕ → List ℕ → IResult ℕ
unfolding from_be read_take
read_be k s = do (remain, bs) ← read_take k s; ok (remain, from_be bs)

pub from_be_acc-append :
    (acc : ℕ) (xs ys : List ℕ) → from_be_acc acc (xs ++ ys) ≡ from_be_acc (from_be_acc acc xs) ys
unfolding from_be_acc
from_be_acc-append acc [] ys = refl
from_be_acc-append acc (x ∷ xs) ys = from_be_acc-append (acc * 256 + x) xs ys

pub length-be_bytes : (k v : ℕ) → length (be_bytes k v) ≡ k
unfolding be_bytes
length-be_bytes zero v = refl
length-be_bytes (suc k) v =
    omega (
      arith,
      length-append {0} (be_bytes k (v / 256)) ((v % 256) ∷ []),
      length-be_bytes k (v / 256),
    )

pow_step : (k v : ℕ) → v < 256 ^ suc k → v / 256 < 256 ^ k
pow_step k v h = omega (arith, pow-suc 256 k)

pow_shift : (acc k : ℕ) → acc * 256 ^ suc k ≡ 256 * (acc * 256 ^ k)
pow_shift acc k = omega (arith, ap (λ (t : ℕ). acc * t) (pow-suc 256 k))

-- Reading after the digits `acc`, the form that a message's fields need.
pub from_be_acc-be_bytes :
    (k acc v : ℕ) → v < 256 ^ k → from_be_acc acc (be_bytes k v) ≡ acc * 256 ^ k + v
unfolding from_be_acc be_bytes
from_be_acc-be_bytes zero acc v h = omega arith
from_be_acc-be_bytes (suc k) acc v h =
    from_be_acc-append acc (be_bytes k (v / 256)) ((v % 256) ∷ [])
    ∙ omega (arith, from_be_acc-be_bytes k acc (v / 256) (pow_step k v h), pow_shift acc k)

pow_scale : (acc k : ℕ) → (acc * 256 + 0) * 256 ^ k ≡ 256 * (acc * 256 ^ k)
pow_scale acc k = grind arith

pub from_be_acc-zeros : (k acc : ℕ) → from_be_acc acc (replicate k 0) ≡ acc * 256 ^ k
unfolding from_be_acc
from_be_acc-zeros zero acc = omega arith
from_be_acc-zeros (suc k) acc =
    omega (arith, from_be_acc-zeros k (acc * 256 + 0), pow_shift acc k, pow_scale acc k)

-- The first byte is what stands above the others.
pub be_bytes_high :
    (k q r : ℕ) → r < 256 ^ k → be_bytes (suc k) (q * 256 ^ k + r) ≡ (q % 256) ∷ be_bytes k r
unfolding be_bytes
be_bytes_high zero q r h = ground arith
be_bytes_high (suc k) q r h =
    ground (arith, pow_shift q k, pow-suc 256 k, be_bytes_high k q (r / 256))

pub from_be-be_bytes : (k v : ℕ) → v < 256 ^ k → from_be (be_bytes k v) ≡ v
unfolding from_be
from_be-be_bytes k v h = omega (arith, from_be_acc-be_bytes k 0 v h)

pub be_bytes-IsByte : (k v : ℕ) → All (λ b. b < 256) (be_bytes k v)
unfolding be_bytes
be_bytes-IsByte zero v = tt
be_bytes-IsByte (suc k) v =
    All-append _ (be_bytes k (v / 256)) _ (be_bytes-IsByte k (v / 256)) (omega arith)

pub read_take-append : (xs rest : List ℕ) → read_take (length xs) (xs ++ rest) ≡ ok (rest, xs)
unfolding read_take
read_take-append [] rest = refl
read_take-append (x ∷ xs) rest = rw (read_take-append xs rest)

pub read_take_exact :
    (n : ℕ) (xs rest : List ℕ) → length xs ≡ n → read_take n (xs ++ rest) ≡ ok (rest, xs)
read_take_exact n xs rest e = rw (← e) (read_take-append xs rest)

pub read_be-be_bytes :
    (k v : ℕ) (rest : List ℕ) → v < 256 ^ k → read_be k (be_bytes k v ++ rest) ≡ ok (rest, v)
unfolding read_be
read_be-be_bytes k v rest h =
    rw (read_take_exact k (be_bytes k v) rest (length-be_bytes k v), from_be-be_bytes k v h)

-- A successful read returns the front of the input, and what follows it.
pub read_take-ok :
    (n : ℕ) (s : List ℕ) {remain xs : List ℕ}
    → read_take n s ≡ ok (remain, xs)
    → (s ≡ xs ++ remain) × (length xs ≡ n)
unfolding read_take
read_take-ok zero s h = ground arith
read_take-ok (suc n) [] h = cc
read_take-ok (suc n) (x ∷ s) h = elim (IResult-cases (read_take n s)) [
  | inl ((r, ys), e) ↦ let (p, q) = read_take-ok n s e in ground (arith, e, p, q)
  | inr (x, e) ↦ ground (arith, e)
]

pub length-read_take :
    (n : ℕ) (s : List ℕ) {remain xs : List ℕ}
    → read_take n s ≡ ok (remain, xs)
    → (length s ≡ n + length remain) × (length xs ≡ n)
length-read_take n s {remain} {xs} h =
    let (p, q) = read_take-ok n s h in (rw p (omega (arith, length-append {0} xs remain)), q)

pub length-read_be :
    (k : ℕ) (s : List ℕ) {remain : List ℕ} {v : ℕ}
    → read_be k s ≡ ok (remain, v)
    → length s ≡ k + length remain
unfolding read_be
length-read_be k s h = elim (IResult-cases (read_take k s)) [
  | inl ((r, ys), e) ↦ let p = length-read_take k s e in ground (arith, e, p)
  | inr (x, e) ↦ ground (arith, e)
]

pub read_take_short :
    (n : ℕ) (s : List ℕ) → length s < n → read_take n s ≡ err (incomplete (n - length s))
unfolding read_take
read_take_short zero s h = absurd (omega arith)
read_take_short (suc n) [] h = ground arith
read_take_short (suc n) (x ∷ s) h = rw (read_take_short n s (omega arith)) (ground arith)

pub read_be_one : (b : ℕ) (s : List ℕ) → read_be 1 (b ∷ s) ≡ ok (s, b)
unfolding read_be from_be_acc
read_be_one b s = ground arith

pub read_take_all : (xs : List ℕ) → read_take (length xs) xs ≡ ok ([], xs)
read_take_all xs =
    subst (λ ys. read_take (length xs) ys ≡ ok ([], xs)) (append-nil xs) (read_take-append xs [])

pub read_be_all : (k v : ℕ) → v < 256 ^ k → read_be k (be_bytes k v) ≡ ok ([], v)
read_be_all k v h =
    subst (λ ys. read_be k ys ≡ ok ([], v)) (append-nil (be_bytes k v)) (read_be-be_bytes k v [] h)
