-- ===== src/Tests/Pacer.antt =====
-- audio_frame_pacer.h at concrete instants.
use qh_voice_kit.Base.{◌≡◌, refl, true, [], ◌∷◌, arith}
use qh_voice_kit.Pacer.{AudioFramePacer, due, reset}
use qh_voice_kit.Pacer.Spacing.{sent, due-reset}

abbrev pacer : AudioFramePacer
pacer = record { period_ms = 20; last_sent_ms = 4294967286 }

sends : sent (0 ∷ 10 ∷ 15 ∷ 29 ∷ 30 ∷ []) pacer ≡ 10 ∷ 30 ∷ []
unfolding sent due
sends = refl

due-reset_example : (due 5 (reset 5 pacer)).0 ≡ true
due-reset_example = due-reset pacer 5 (omega arith) (omega arith)
