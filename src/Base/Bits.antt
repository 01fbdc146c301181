-- ===== src/Base/Bits.antt =====
-- `|` of fields that do not overlap is a sum, and `&` with a mask of low ones is a remainder.
use Prim.Native.Nat.{
  ℕ, zero, suc, ◌+◌, ◌*◌, ◌-◌, ◌/◌, ◌%◌, ◌^◌, ◌≤◌, ◌<◌, min, max, bit_and, bit_or, digits,
  bit_and-bitwise, bit_or-bitwise,
}
use mathlib.Core.Path.{◌≡◌, refl, ap}
use native.Mathlib.Nat.{pow-suc, one-le-pow}
use native.Mathlib.Omega.{arith}

module _ (low : ℕ → ℕ) (join : ℕ → ℕ → ℕ) where
  -- Any fuel from the first operand on gives the same digits.
  digits_fuel : (n m a b : ℕ) → a ≤ n → a ≤ m → digits low join n a b ≡ digits low join m a b
  digits_fuel zero zero a b hn hm = refl
  digits_fuel (suc n) zero zero b hn hm = refl
  digits_fuel (suc n) zero (suc a) b hn hm = absurd (omega arith)
  digits_fuel zero (suc m) zero b hn hm = refl
  digits_fuel zero (suc m) (suc a) b hn hm = absurd (omega arith)
  digits_fuel (suc n) (suc m) zero b hn hm = refl
  digits_fuel (suc n) (suc m) (suc a) b hn hm =
      ap (λ t. t * 2 + join (suc a % 2) (b % 2))
        (digits_fuel n m (suc a / 2) (b / 2) (omega arith) (omega arith))

-- The lowest digit of each operation, and the rest.
or_digit : (a b : ℕ) → bit_or a b ≡ bit_or (a / 2) (b / 2) * 2 + max (a % 2) (b % 2)
or_digit zero b = omega (arith, bit_or-bitwise 0 b, bit_or-bitwise 0 (b / 2))
or_digit (suc a) b = omega (
  arith,
  bit_or-bitwise (suc a) b,
  bit_or-bitwise (suc a / 2) (b / 2),
  digits_fuel (λ y. y) max a (suc a / 2) (suc a / 2) (b / 2) (omega arith) (omega arith),
)

and_digit : (a b : ℕ) → bit_and a b ≡ bit_and (a / 2) (b / 2) * 2 + min (a % 2) (b % 2)
and_digit zero b = omega (arith, bit_and-bitwise 0 b, bit_and-bitwise 0 (b / 2))
and_digit (suc a) b = omega (
  arith,
  bit_and-bitwise (suc a) b,
  bit_and-bitwise (suc a / 2) (b / 2),
  digits_fuel (λ _. zero) min a (suc a / 2) (suc a / 2) (b / 2) (omega arith) (omega arith),
)

or_zero_below : (n a : ℕ) → a ≤ n → bit_or a 0 ≡ a
or_zero_below n zero h = refl
or_zero_below zero (suc a) h = absurd (omega arith)
or_zero_below (suc n) (suc a) h =
    omega (arith, or_digit (suc a) 0, or_zero_below n (suc a / 2) (omega arith))

and_zero_below : (n a : ℕ) → a ≤ n → bit_and a 0 ≡ 0
and_zero_below n zero h = refl
and_zero_below zero (suc a) h = absurd (omega arith)
and_zero_below (suc n) (suc a) h =
    omega (arith, and_digit (suc a) 0, and_zero_below n (suc a / 2) (omega arith))

twice_shift : (k q : ℕ) → q * 2 ^ suc k ≡ 2 * (q * 2 ^ k)
twice_shift k q = omega (arith, ap (λ (t : ℕ). q * t) (pow-suc 2 k))

-- `(q << k) | r` is a sum when `r` has at most `k` bits.
pub bit_or_disjoint : (k q r : ℕ) → r < 2 ^ k → bit_or (q * 2 ^ k) r ≡ q * 2 ^ k + r
bit_or_disjoint zero q r h = ground (arith, or_zero_below q q)
bit_or_disjoint (suc k) q r h =
    ground
      (arith, or_digit (q * 2 ^ suc k) r, twice_shift k q, pow-suc 2 k, bit_or_disjoint k q (r / 2))

and_low : (k q r : ℕ) → r < 2 ^ k → bit_and (q * 2 ^ k + r) (2 ^ k - 1) ≡ r
and_low zero q r h = ground (arith, and_zero_below (q * 2 ^ 0 + r) (q * 2 ^ 0 + r))
and_low (suc k) q r h = ground (
  arith,
  and_digit (q * 2 ^ suc k + r) (2 ^ suc k - 1),
  twice_shift k q,
  pow-suc 2 k,
  one-le-pow k 2,
  and_low k q (r / 2),
)

-- `a & (2^k - 1)` is the remainder by 2^k.
pub bit_and_low : (k a : ℕ) → bit_and a (2 ^ k - 1) ≡ a % 2 ^ k
bit_and_low k a = ground (arith, one-le-pow k 2, and_low k (a / 2 ^ k) (a % 2 ^ k))
