-- ===== src/Tests/Pcm.antt =====
-- pcm_audio.h at concrete samples.
use qh_voice_kit.Base.{◌≡◌, refl, false, [], ◌∷◌}
use qh_voice_kit.Pcm.{
  convert_i2s32_to_pcm16le, convert_samples, sample_bytes, scale_pcm16le, scale_samples,
  scale_sample,
}

converts :
    convert_i2s32_to_pcm16le false (0x12345678 ∷ 0xffff0000 ∷ []) 4
    ≡ (4, 0x34 ∷ 0x12 ∷ 0xff ∷ 0xff ∷ [])
unfolding convert_i2s32_to_pcm16le convert_samples sample_bytes
converts = refl

-- Half of 1000, and half of -3, which is -1.
halves : scale_pcm16le false (0xe8 ∷ 0x03 ∷ 0xfd ∷ 0xff ∷ []) 50 ≡ 0xf4 ∷ 0x01 ∷ 0xff ∷ 0xff ∷ []
unfolding scale_pcm16le scale_samples scale_sample sample_bytes
halves = refl
