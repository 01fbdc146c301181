-- ===== src/Pacer.antt =====
-- firmware/esp32_voice_kit/audio_frame_pacer.h: microphone frames are sent a period apart. Time is
-- the 32-bit count of milliseconds, which wraps.
pub mod Spacing
use qh_voice_kit.Base.{ℕ, Bool, true, false, ltb, if◌then◌else◌}
use qh_voice_kit.Base.Words.{sub32}

pub record AudioFramePacer : Type 0 where
  pub period_ms : ℕ
  pub last_sent_ms : ℕ

unfoldable pub reset : ℕ → AudioFramePacer → AudioFramePacer
reset now_ms p = record p { last_sent_ms = sub32 now_ms p.period_ms }

-- What `due` returns, and the state behind it.
unfoldable pub due : ℕ → AudioFramePacer → Bool × AudioFramePacer
due now_ms p =
    if ltb (sub32 now_ms p.last_sent_ms) p.period_ms
    then (false, p)
    else (true, record p { last_sent_ms = now_ms })
