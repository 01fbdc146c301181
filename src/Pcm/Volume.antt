-- ===== src/Pcm/Volume.antt =====
-- pcm_audio.h: a sample under `scalePcm16Le`.
use qh_voice_kit.Base.{ℕ, ◌≤◌, ◌<◌, ◌-◌, ◌^◌, arith, ltb, if◌then◌else◌}
use native.Mathlib.Nat.{mul-le-mul_left}
use qh_voice_kit.Pcm.{scale_sample}

-- The absolute value of the sample with these bits.
abbrev pub magnitude : ℕ → ℕ
magnitude encoded = if ltb encoded 0x8000 then encoded else 0x10000 - encoded

-- At a volume of at most 100, a 16-bit sample stays one, its magnitude is not greater than
-- before, and a sample that is not negative does not become negative.
pub magnitude-scale_sample :
    (volume encoded : ℕ)
    → volume ≤ 100
    → encoded < 2 ^ 16
    → (scale_sample volume encoded < 2 ^ 16)
      × (magnitude (scale_sample volume encoded) ≤ magnitude encoded)
      × (encoded < 0x8000 → scale_sample volume encoded < 0x8000)
unfolding scale_sample
magnitude-scale_sample volume encoded hv he =
    ground (arith, mul-le-mul_left encoded hv, mul-le-mul_left (0x10000 - encoded) hv)
