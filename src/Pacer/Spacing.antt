-- ===== src/Pacer/Spacing.antt =====
-- audio_frame_pacer.h: the instants at which `due` holds.
use qh_voice_kit.Base.{ℕ, ◌≤◌, ◌<◌, ◌^◌, ◌≡◌, true, List, [], ◌∷◌, arith, if◌then◌else◌}
use qh_voice_kit.Base.Words.{sub32}
use qh_voice_kit.Pacer.{AudioFramePacer, reset, due}

-- A pacer that holds 32-bit numbers.
abbrev pub IsWord : AudioFramePacer → Type 0
IsWord p = (p.period_ms < 2 ^ 32) × (p.last_sent_ms < 2 ^ 32)

-- The instants among the given ones, oldest first, at which `due` returns true.
unfoldable pub sent : List ℕ → AudioFramePacer → List ℕ
unfolding due
sent [] p = []
sent (now ∷ later) p =
    let (ok, p') = due now p in let rest = sent later p' in if ok then now ∷ rest else rest

-- Each instant is at least a period after the one before it, counted modulo 2^32.
abbrev pub Spaced : ℕ → ℕ → List ℕ → Type 0
Spaced period last [] = Unit
Spaced period last (t ∷ ts) = (period ≤ sub32 t last) × Spaced period t ts

-- Whatever instants `due` is called at, two consecutive ones at which it returns true are at least a
-- period apart (modulo 2^32), and the first of them is a period after the last sent one.
pub sent-Spaced :
    (p : AudioFramePacer) (times : List ℕ) → Spaced p.period_ms p.last_sent_ms (sent times p)
unfolding sent due
sent-Spaced p [] = tt
sent-Spaced p (now ∷ later) =
    ground (arith, sent-Spaced p later, sent-Spaced (record p { last_sent_ms = now }) later)

-- A pacer that was reset is due at once.
pub due-reset :
    (p : AudioFramePacer) (now : ℕ)
    → p.period_ms < 2 ^ 32
    → now < 2 ^ 32
    → (due now (reset now p)).0 ≡ true
unfolding due reset
due-reset p now hp hn = ground arith
