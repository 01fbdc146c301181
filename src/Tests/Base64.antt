-- ===== src/Tests/Base64.antt =====
-- realtime_voice_protocol.h: Base64 at concrete texts.
use qh_voice_kit.Base.{[], ◌∷◌, ◌≡◌, refl, ◌↔◌, true, false, arith}
use qh_voice_kit.Base.Bytes.{codes}
use qh_voice_kit.Base64.{encode_base64, decode_base64, decode_from, decode_block, base64_value}
use qh_voice_kit.Base64.Accepts.{IsText, decode_base64-eq_true_iff}
use qh_voice_kit.Base64.RoundTrip.{decode_base64-encode_base64}

encodes : encode_base64 (codes "Ma") ≡ codes "TWE="
unfolding encode_base64
encodes = refl

-- A failure leaves what was decoded before it.
partial : decode_base64 (codes "TWFuT?==") ≡ (false, codes "Man")
unfolding decode_base64 decode_from decode_block base64_value
partial = refl

decode_base64-encode_base64_example :
    decode_base64 (encode_base64 (0 ∷ 255 ∷ 16 ∷ 7 ∷ [])) ≡ (true, 0 ∷ 255 ∷ 16 ∷ 7 ∷ [])
decode_base64-encode_base64_example =
    decode_base64-encode_base64 (0 ∷ 255 ∷ 16 ∷ 7 ∷ []) (omega arith)

decode_base64-eq_true_iff_example :
    ((decode_base64 (codes "TWE=")).0 ≡ true) ↔ IsText (codes "TWE=")
decode_base64-eq_true_iff_example = decode_base64-eq_true_iff (codes "TWE=")
