-- ===== src/Base/Integers.antt =====
-- Signed numbers over the native ones, for the results of `int` that the firmware compares.
use qh_voice_kit.Base.{ℕ, ◌+◌, Bool, true, false, ◌∷◌, leb, ltb, ◌==◌}
use qh_voice_kit.Base.Bytes.{Bytes}
use qh_voice_kit.Base.Decimal.{to_decimal}

-- `negsuc n` is -(n + 1).
pub data ℤ : Type 0 where
  pos : ℕ → ℤ
  negsuc : ℕ → ℤ

-- Comparisons with a number that is not negative.
abbrev pub is : ℤ → ℕ → Bool
is (pos n) k = n == k
is (negsuc _) k = false

abbrev pub at_least : ℤ → ℕ → Bool
at_least (pos n) k = leb k n
at_least (negsuc _) k = false

abbrev pub below : ℤ → ℕ → Bool
below (pos n) k = ltb n k
below (negsuc _) k = true

-- `std::to_string` of a signed number.
unfoldable pub int_to_decimal : ℤ → Bytes
int_to_decimal (pos n) = to_decimal n
int_to_decimal (negsuc n) = b'-' ∷ to_decimal (n + 1)
