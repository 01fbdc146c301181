-- ===== src/Tts/Valid.antt =====
-- doubao_tts_protocol.h: the requests that the validation lets through, and the text read back.
use qh_voice_kit.Base.{
  ℕ, ◌≤◌, ◌<◌, ◌≡◌, ◌↔◌, Bool, true, false, List, [], ◌∷◌, arith, ◌==◌, ==_iff, ◌⊎◌, inl, inr,
  Bool-cases,
}
use qh_voice_kit.Base.Bytes.{Bytes, bytes_eq, bytes_eq_iff}
use qh_voice_kit.Base.Integers.{ℤ, pos, negsuc}
use qh_voice_kit.Tts.{
  DoubaoTtsRequest, TtsRequestError, is_blank_text, formats, sample_rates, supported_format,
  supported_sample_rate, out_of_range, validate_doubao_tts_request,
}

-- The value equals one of the list.
abbrev pub OneOf : {A : Type 0} → A → List A → Type 0
OneOf x [] = ⊥
OneOf x (y ∷ ys) = (x ≡ y) ⊎ OneOf x ys

-- A rate from -50 to 100.
abbrev pub IsRate : ℤ → Type 0
IsRate (pos n) = n ≤ 100
IsRate (negsuc n) = n < 50

-- What the speech service is sent: texts that are not blank, a known format and rate of samples,
-- and rates from -50 to 100.
abbrev pub IsValid : DoubaoTtsRequest → Type 0
IsValid request =
    (is_blank_text request.user_id ≡ false)
    × (is_blank_text request.text ≡ false)
    × (is_blank_text request.speaker ≡ false)
    × OneOf request.audio_format formats
    × OneOf request.sample_rate sample_rates
    × IsRate request.speech_rate
    × IsRate request.loudness_rate

out_of_range-IsRate : (r : ℤ) → (out_of_range r ≡ false) ↔ IsRate r
out_of_range-IsRate (pos n) = ground arith
out_of_range-IsRate (negsuc n) = ground arith

format_found :
    (fs : List Bytes) (x : Bytes) (flag : Bool)
    → (supported_format fs x flag ≡ true) ↔ ((flag ≡ true) ⊎ OneOf x fs)
unfolding supported_format
format_found [] x flag = ground arith
format_found (f ∷ fs) x flag = elim (Bool-cases (bytes_eq x f)) [
  | inl e ↦ rw e (ground (arith, format_found fs x true, bytes_eq_iff x f))
  | inr e ↦ rw e (ground (arith, format_found fs x flag, bytes_eq_iff x f))
]

rate_found :
    (rs : List ℕ) (x : ℕ) (flag : Bool)
    → (supported_sample_rate rs x flag ≡ true) ↔ ((flag ≡ true) ⊎ OneOf x rs)
unfolding supported_sample_rate
rate_found [] x flag = ground arith
rate_found (r ∷ rs) x flag = elim (Bool-cases (x == r)) [
  | inl e ↦ rw e (ground (arith, rate_found rs x true, ==_iff x r))
  | inr e ↦ rw e (ground (arith, rate_found rs x flag, ==_iff x r))
]

-- The validation of a request to the speech service reports no error exactly for the requests that
-- are valid by its rules.
pub validate_doubao_tts_request-eq-none_iff :
    (request : DoubaoTtsRequest)
    → (validate_doubao_tts_request request ≡ TtsRequestError.none) ↔ IsValid request
unfolding validate_doubao_tts_request
validate_doubao_tts_request-eq-none_iff request = ground (
  arith,
  format_found formats request.audio_format false,
  rate_found sample_rates request.sample_rate false,
  out_of_range-IsRate request.speech_rate,
  out_of_range-IsRate request.loudness_rate,
)
