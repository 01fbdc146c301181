-- ===== src/Base/Tables.antt =====
-- A property of every number below a bound, checked by evaluation.
use qh_voice_kit.Base.{ℕ, zero, suc, ◌<◌, ◌≡◌, Bool, true, ◌&&◌, arith}

unfoldable pub all_below : ℕ → (ℕ → Bool) → Bool
all_below zero p = true
all_below (suc n) p = p n && all_below n p

pub all_below→at : (n : ℕ) (p : ℕ → Bool) → all_below n p ≡ true → (x : ℕ) → x < n → p x ≡ true
unfolding all_below
all_below→at zero p h x lt = absurd (omega arith)
all_below→at (suc n) p h x lt = ground (arith, all_below→at n p (ground arith) x)
