-- ===== src/Bits/Digits.antt =====
-- One binary digit of `&` and `|`, from the digit recursion by which the native operations are
-- specified.
use Prim.Native.Nat.{bit_and, bit_or, digits, min, max, bit_and-bitwise, bit_or-bitwise}
use ddns.Prelude.{ℕ, zero, suc, ◌+◌, ◌*◌, ◌/◌, ◌%◌, ◌≤◌, ◌≡◌, refl, arith}

digits_end : (z : ℕ → ℕ) (g : ℕ → ℕ → ℕ) (n b : ℕ) → digits z g n zero b ≡ z b
digits_end z g zero b = refl
digits_end z g (suc n) b = refl

-- Fuel above the first number changes nothing.
digits_enough :
    (z : ℕ → ℕ) (g : ℕ → ℕ → ℕ) (n m a b : ℕ) → a ≤ n → a ≤ m → digits z g n a b ≡ digits z g m a b
digits_enough z g n m zero b p q = omega (arith, digits_end z g n b, digits_end z g m b)
digits_enough z g zero m (suc a) b p q = absurd (omega arith)
digits_enough z g (suc n) zero (suc a) b p q = absurd (omega arith)
digits_enough z g (suc n) (suc m) (suc a) b p q =
    omega (arith, digits_enough z g n m (suc a / 2) (b / 2) (omega arith) (omega arith))

pub bit_and_digit : (a b : ℕ) → bit_and a b ≡ bit_and (a / 2) (b / 2) * 2 + min (a % 2) (b % 2)
bit_and_digit zero b = omega (arith, bit_and-bitwise 0 b, bit_and-bitwise 0 (b / 2))
bit_and_digit (suc a) b = omega (
  arith,
  bit_and-bitwise (suc a) b,
  bit_and-bitwise (suc a / 2) (b / 2),
  digits_enough (λ b. 0) min a (suc a / 2) (suc a / 2) (b / 2) (omega arith) (omega arith),
)

pub bit_or_digit : (a b : ℕ) → bit_or a b ≡ bit_or (a / 2) (b / 2) * 2 + max (a % 2) (b % 2)
bit_or_digit zero b = omega (arith, bit_or-bitwise 0 b, bit_or-bitwise 0 (b / 2))
bit_or_digit (suc a) b = omega (
  arith,
  bit_or-bitwise (suc a) b,
  bit_or-bitwise (suc a / 2) (b / 2),
  digits_enough (λ b. b) max a (suc a / 2) (suc a / 2) (b / 2) (omega arith) (omega arith),
)

-- An operand with no digits; the recursion is on a bound of the other.
and_nothing_below : (n a : ℕ) → a ≤ n → bit_and a 0 ≡ 0
and_nothing_below n zero h = refl
and_nothing_below zero (suc a) h = absurd (omega arith)
and_nothing_below (suc n) (suc a) h =
    omega (arith, bit_and_digit (suc a) 0, and_nothing_below n (suc a / 2) (omega arith))

or_nothing_below : (n a : ℕ) → a ≤ n → bit_or a 0 ≡ a
or_nothing_below n zero h = refl
or_nothing_below zero (suc a) h = absurd (omega arith)
or_nothing_below (suc n) (suc a) h =
    omega (arith, bit_or_digit (suc a) 0, or_nothing_below n (suc a / 2) (omega arith))

pub bit_and_nothing : (a : ℕ) → bit_and a 0 ≡ 0
bit_and_nothing a = and_nothing_below a a (omega arith)

pub bit_or_nothing : (a : ℕ) → bit_or a 0 ≡ a
bit_or_nothing a = or_nothing_below a a (omega arith)
