-- ===== src/Realtime/Codes.antt =====
-- realtime_voice_protocol.h: what `safeRealtimeErrorCode` lets through.
use qh_voice_kit.Base.{◌≤◌, ◌<◌, ◌≡◌, refl, true, [], ◌∷◌, length, arith, All}
use qh_voice_kit.Base.Bytes.{Bytes, codes}
use qh_voice_kit.Realtime.{is_code_character, all_code_characters, safe_realtime_error_code}

-- A short code of letters, digits and the three marks.
abbrev pub IsCode : Bytes → Type 0
IsCode code = (0 < length code) × (length code ≤ 48) × All (λ c. is_code_character c ≡ true) code

all_code_characters-All :
    (code : Bytes) → all_code_characters code ≡ true → All (λ c. is_code_character c ≡ true) code
unfolding all_code_characters
all_code_characters-All [] h = tt
all_code_characters-All (c ∷ code) h = ground (arith, all_code_characters-All code)

provider_error-IsCode : IsCode (codes "provider_error")
unfolding is_code_character all_code_characters
provider_error-IsCode =
    (omega arith, omega arith, all_code_characters-All (codes "provider_error") refl)

All-all_code_characters :
    (code : Bytes) → All (λ c. is_code_character c ≡ true) code → all_code_characters code ≡ true
unfolding all_code_characters
All-all_code_characters [] h = refl
All-all_code_characters (c ∷ code) h = ground (arith, All-all_code_characters code)

-- Whatever the service sent, the shown code has 1 to 48 letters, digits, `_`, `-` and `.`; and a code
-- that is of this form is shown as it is.
pub safe_realtime_error_code-IsCode :
    (code : Bytes)
    → IsCode (safe_realtime_error_code code) × (IsCode code → safe_realtime_error_code code ≡ code)
unfolding safe_realtime_error_code
safe_realtime_error_code-IsCode [] = (provider_error-IsCode, λ h. absurd (omega (arith, h.0)))
safe_realtime_error_code-IsCode (c ∷ code) = ground (
  arith,
  provider_error-IsCode,
  all_code_characters-All (c ∷ code),
  All-all_code_characters (c ∷ code),
)
