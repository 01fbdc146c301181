-- ===== src/Asr/Failure.antt =====
-- firmware/esp32_voice_kit/asr_failure_diagnostic.h: why speech recognition failed.
use qh_voice_kit.Base.{ℕ, ◌+◌, ◌-◌, ◌*◌, ◌||◌, none, some, [], ◌∷◌, if◌then◌else◌, drop, length}
use qh_voice_kit.Base.Bytes.{Bytes, codes}
use qh_voice_kit.Base.Integers.{ℤ, pos, is, at_least}
use qh_voice_kit.Base.Search.{find_text}
use qh_voice_kit.Base.Words.{u32}
use qh_voice_kit.Json.{is_digit}
use qh_voice_kit.Asr.{to_int32}

pub data AsrFailureCategory : Type 0 where
  no_failure auth handshake network provider protocol : AsrFailureCategory

pub record AsrFailureDiagnostic : Type 0 where
  pub category : AsrFailureCategory
  pub http_status : ℤ
  pub provider_code : ℕ

abbrev pub diagnostic : AsrFailureCategory → ℤ → ℕ → AsrFailureDiagnostic
diagnostic category status code = record {
  category = category;
  http_status = status;
  provider_code = code;
}

-- The digits of the status, an `int`; where it overflows, which C++ leaves undefined, the model
-- keeps the 32 bits that the processor computes.
unfoldable pub status_digits : ℕ → Bytes → ℕ
status_digits status [] = status
status_digits status (c ∷ reason) =
    let later = status_digits (u32 (status * 10 + (c - b'0'))) reason in
    if is_digit c then later else status

unfoldable pub classify_status : ℤ → AsrFailureDiagnostic
classify_status status =
    if is status 401 || is status 403
    then diagnostic auth status 0
    else diagnostic (if at_least status 1 then handshake else network) status 0

unfoldable pub classify_asr_disconnect : Bytes → AsrFailureDiagnostic
unfolding find_text status_digits to_int32 classify_status
classify_asr_disconnect reason = elim (find_text (codes "HTTP ") reason) [
  | none ↦ diagnostic network (pos 0) 0
  | some offset ↦
      classify_status (to_int32 (status_digits 0 (drop (offset + length (codes "HTTP ")) reason)))
]

unfoldable pub asr_failure_category_name : AsrFailureCategory → Bytes
asr_failure_category_name no_failure = codes "none"
asr_failure_category_name auth = codes "auth"
asr_failure_category_name handshake = codes "handshake"
asr_failure_category_name network = codes "network"
asr_failure_category_name provider = codes "provider"
asr_failure_category_name protocol = codes "protocol"
