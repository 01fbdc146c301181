-- ===== src/Base64/Steps.antt =====
-- realtime_voice_protocol.h: one round of the loop of `decodeBase64`.
use qh_voice_kit.Base.{ℕ, false, none, some, ◌∷◌, ◌++◌, ◌≡◌}
use qh_voice_kit.Base.Bytes.{Bytes, is_empty}
use qh_voice_kit.Base64.{decode_block, decode_from}

module _ (output : Bytes) (a b c d : ℕ) (rest : Bytes) where
  pub decode_from-some :
      {bytes : Bytes}
      → decode_block a b c d (is_empty rest) ≡ some bytes
      → decode_from output (a ∷ b ∷ c ∷ d ∷ rest) ≡ decode_from (output ++ bytes) rest
  unfolding decode_from
  decode_from-some h = rw (h, decode_from)

  pub decode_from-none :
      decode_block a b c d (is_empty rest) ≡ none
      → decode_from output (a ∷ b ∷ c ∷ d ∷ rest) ≡ (false, output)
  unfolding decode_from
  decode_from-none h = rw (h, decode_from)
