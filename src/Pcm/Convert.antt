-- ===== src/Pcm/Convert.antt =====
-- pcm_audio.h: the size of what `convertI2s32ToPcm16Le` writes.
use qh_voice_kit.Base.{ℕ, ◌≤◌, ◌*◌, ◌≡◌, refl, false, List, [], ◌∷◌, length, arith}
use qh_voice_kit.Pcm.{sample_bytes, convert_samples, convert_i2s32_to_pcm16le}

length-convert_samples : (input : List ℕ) → length (convert_samples input) ≡ length input * 2
unfolding convert_samples sample_bytes
length-convert_samples [] = refl
length-convert_samples (x ∷ input) = omega (arith, length-convert_samples input)

-- With pointers that are not null, exactly the returned number of bytes is written, never more than
-- the capacity, and all samples are written when the capacity has room for them.
pub length-convert_i2s32_to_pcm16le :
    (input : List ℕ) (capacity : ℕ)
    → let (returned, written) = convert_i2s32_to_pcm16le false input capacity in
      (length written ≡ returned)
      × (returned ≤ capacity)
      × (length input * 2 ≤ capacity → returned ≡ length input * 2)
unfolding convert_i2s32_to_pcm16le
length-convert_i2s32_to_pcm16le input capacity = ground (arith, length-convert_samples input)
