-- ===== src/Base/Decimal.antt =====
-- `std::to_string` of an unsigned number: its decimal digits.
use qh_voice_kit.Base.{
  ℕ, zero, suc, ◌+◌, ◌/◌, ◌%◌, ◌<◌, false, ◌≡◌, refl, [], ◌∷◌, arith, ltb, if◌then◌else◌, All,
  Bool-cases, inl, inr,
}
use qh_voice_kit.Base.Bytes.{Bytes, is_empty}

-- The digits of a number in front of a text. The fuel is more than the number of digits.
unfoldable pub digits_onto : ℕ → ℕ → Bytes → Bytes
digits_onto zero n text = text
digits_onto (suc fuel) n text =
    let more = digits_onto fuel (n / 10) ((n % 10 + b'0') ∷ text) in
    if ltb n 10 then (n + b'0') ∷ text else more

unfoldable pub to_decimal : ℕ → Bytes
unfolding digits_onto
to_decimal n = digits_onto (suc n) n []

pub digits_onto-All {κ} :
    (P : ℕ → Type κ) (fuel n : ℕ) (text : Bytes)
    → ((d : ℕ) → d < 10 → P (d + b'0'))
    → All P text
    → All P (digits_onto fuel n text)
unfolding digits_onto
digits_onto-All P zero n text h t = t
digits_onto-All P (suc fuel) n text h t = elim (Bool-cases (ltb n 10)) [
  | inl small ↦ rw small (h n (ground arith), t)
  | inr large ↦ rw large (digits_onto-All P fuel (n / 10) _ h (h (n % 10) (omega arith), t))
]

digits_onto-is_empty :
    (fuel n c : ℕ) (text : Bytes) → is_empty (digits_onto fuel n (c ∷ text)) ≡ false
unfolding digits_onto
digits_onto-is_empty zero n c text = refl
digits_onto-is_empty (suc fuel) n c text =
    ground (arith, digits_onto-is_empty fuel (n / 10) (n % 10 + b'0') (c ∷ text))

pub to_decimal-is_empty : (n : ℕ) → is_empty (to_decimal n) ≡ false
unfolding to_decimal
to_decimal-is_empty n = ground (arith, digits_onto-is_empty n (n / 10) (n % 10 + b'0') [])
