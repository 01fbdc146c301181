-- ===== src/Pcm.antt =====
-- firmware/esp32_voice_kit/pcm_audio.h: samples as little-endian bytes. A signed number is the
-- unsigned one of the same bits. Children: how many bytes are written, and what the volume does.
pub mod Convert
pub mod Volume
use qh_voice_kit.Base.{
  ℕ, ◌+◌, ◌-◌, ◌*◌, ◌/◌, ◌%◌, bit_and, bit_or, Bool, ◌||◌, List, [], ◌∷◌, ltb, ◌==◌, if◌then◌else◌,
  length,
}
use qh_voice_kit.Base.Bytes.{Bytes}
use qh_voice_kit.Base.Words.{◌<<<◌, ◌>>>◌, u8, u16}

-- The two bytes of a 16-bit sample.
unfoldable pub sample_bytes : ℕ → Bytes → Bytes
sample_bytes sample rest = u8 (bit_and sample 0xff) ∷ u8 (bit_and (sample >>> 8) 0xff) ∷ rest

-- The loop: `static_cast<int16_t>(input[index] >> 16)` of each sample.
unfoldable pub convert_samples : List ℕ → Bytes
unfolding sample_bytes
convert_samples [] = []
convert_samples (x ∷ input) = sample_bytes (u16 (x >>> 16)) (convert_samples input)

-- The first argument says that a pointer is null; the result is what is returned and what is
-- written at the start of the output.
unfoldable pub convert_i2s32_to_pcm16le : Bool → List ℕ → ℕ → ℕ × Bytes
unfolding convert_samples
convert_i2s32_to_pcm16le is_null input output_capacity =
    if is_null || length input == 0 || ltb (output_capacity / 2) (length input)
    then (0, [])
    else (length input * 2, convert_samples input)

-- `sample * volume_percent / 100` with the sign of the sample, which rounds towards zero.
unfoldable pub scale_sample : ℕ → ℕ → ℕ
scale_sample volume encoded =
    if ltb encoded 0x8000
    then encoded * volume / 100
    else u16 (0x10000 - (0x10000 - encoded) * volume / 100)

unfoldable pub scale_samples : ℕ → Bytes → Bytes
unfolding scale_sample sample_bytes
scale_samples volume (low ∷ high ∷ pcm) =
    sample_bytes (scale_sample volume (u16 (bit_or low (high <<< 8)))) (scale_samples volume pcm)
scale_samples volume pcm = pcm

unfoldable pub scale_pcm16le : Bool → Bytes → ℕ → Bytes
unfolding scale_samples
scale_pcm16le is_null pcm volume_percent =
    let volume = if ltb 100 volume_percent then 100 else volume_percent in
    if is_null then pcm else scale_samples volume pcm
