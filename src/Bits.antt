-- ===== src/Bits.antt =====
-- The bit operations of the code as arithmetic: masks, single bits, and fields joined by `|`.
mod Digits
mod Table
unfoldable pub use Table.{all_below}
pub use Table.{all_below_sound}
use Digits.{bit_and_digit, bit_or_digit, bit_and_nothing, bit_or_nothing}
use Prim.Native.Nat.{bit_and, bit_or}
use native.Mathlib.Nat.{pow-suc, one-le-pow}
use ddns.Prelude.{ℕ, zero, suc, ◌+◌, ◌-◌, ◌*◌, ◌/◌, ◌%◌, ◌^◌, ◌<◌, ◌≡◌, ap, arith}

shift_suc : (q k : ℕ) → q * 2 ^ suc k ≡ 2 * (q * 2 ^ k)
shift_suc q k = omega (arith, ap (λ (t : ℕ). q * t) (pow-suc 2 k))

-- A field above bit `k` joined with one below it.
pub bit_or_high : (k q r : ℕ) → r < 2 ^ k → bit_or (q * 2 ^ k) r ≡ q * 2 ^ k + r
bit_or_high zero q r h = ground (arith, bit_or_nothing q)
bit_or_high (suc k) q r h = ground (
  arith,
  shift_suc q k,
  pow-suc 2 k,
  bit_or_digit (q * 2 ^ suc k) r,
  bit_or_high k q (r / 2) (omega (arith, pow-suc 2 k)),
)

mask_high : (k q r : ℕ) → r < 2 ^ k → bit_and (q * 2 ^ k + r) (2 ^ k - 1) ≡ r
mask_high zero q r h = ground (arith, bit_and_nothing (q * 2 ^ zero + r))
mask_high (suc k) q r h = ground (
  arith,
  shift_suc q k,
  pow-suc 2 k,
  one-le-pow k 2,
  bit_and_digit (q * 2 ^ suc k + r) (2 ^ suc k - 1),
  mask_high k q (r / 2) (omega (arith, pow-suc 2 k)),
)

-- A mask of the low `k` bits.
pub bit_and_mask : (k a : ℕ) → bit_and a (2 ^ k - 1) ≡ a % 2 ^ k
bit_and_mask k a = ground (arith, one-le-pow k 2, mask_high k (a / 2 ^ k) (a % 2 ^ k))

single_high : (k q r : ℕ) → r < 2 ^ k → bit_and (q * 2 ^ k + r) (2 ^ k) ≡ q % 2 * 2 ^ k
single_high zero q r h =
    ground (arith, bit_and_digit (q * 1 + r) 1, bit_and_nothing ((q * 1 + r) / 2))
single_high (suc k) q r h = ground (
  arith,
  shift_suc q k,
  shift_suc (q % 2) k,
  pow-suc 2 k,
  bit_and_digit (q * 2 ^ suc k + r) (2 ^ suc k),
  single_high k q (r / 2) (omega (arith, pow-suc 2 k)),
)

-- A mask of the one bit `k`.
pub bit_and_single : (k a : ℕ) → bit_and a (2 ^ k) ≡ a / 2 ^ k % 2 * 2 ^ k
bit_and_single k a = ground (arith, one-le-pow k 2, single_high k (a / 2 ^ k) (a % 2 ^ k))
