-- ===== src/Realtime/Audio.antt =====
-- realtime_voice_protocol.h: PCM in a message.
use qh_voice_kit.Base.{ℕ, ◌≡◌, refl, ap, true, some, [], ◌∷◌, ◌++◌, arith}
use qh_voice_kit.Base.Bytes.{Bytes, IsBytes, codes}
use qh_voice_kit.Base.Search.{find_first, find_text, begins_with}
use qh_voice_kit.Base64.{encode_base64, decode_base64}
use qh_voice_kit.Base64.Plain.{IsPlain, is_plain, encode_base64-IsPlain}
use qh_voice_kit.Base64.RoundTrip.{decode_base64-encode_base64}
use qh_voice_kit.Json.{escape_byte, escape_json_string, find_json_string, find_value, skip_space}
use qh_voice_kit.Json.RoundTrip.{parse_json_string-escape_json_string}
use qh_voice_kit.Realtime.Messages.{build_realtime_audio_append}

escape_byte-eq : (c : ℕ) → is_plain c ≡ true → escape_byte c ≡ c ∷ []
unfolding escape_byte
escape_byte-eq c h = ground arith

-- Plain text is its own escaped form.
escape_json_string-eq : (s : Bytes) → IsPlain s → escape_json_string s ≡ s
unfolding escape_json_string
escape_json_string-eq [] h = refl
escape_json_string-eq (c ∷ s) (hc, h) =
    rw (escape_byte-eq c hc) (ap (◌∷◌ c) (escape_json_string-eq s h))

IsPlain-IsBytes : (s : Bytes) → IsPlain s → IsBytes s
IsPlain-IsBytes [] h = tt
IsPlain-IsBytes (c ∷ s) (hc, h) = (ground arith, IsPlain-IsBytes s h)

audio_found :
    (text : Bytes)
    → IsBytes text
    → find_json_string
        (codes "{\"type\":\"input_audio_buffer.append\",\"audio\":\""
          ++ (escape_json_string text ++ codes "\"}"))
        (codes "audio")
        0
      ≡ some text
unfolding find_json_string find_value find_text begins_with find_first skip_space
audio_found text h = parse_json_string-escape_json_string text (codes "}") h

-- From the message for any PCM bytes, the search finds an audio text, and that text is decoded to
-- the same bytes.
pub build_realtime_audio_append-decode_base64 :
    (pcm : Bytes)
    → IsBytes pcm
    → (text : Bytes) × (find_json_string (build_realtime_audio_append pcm) (codes "audio") 0
        ≡ some text)
      × (decode_base64 text ≡ (true, pcm))
unfolding build_realtime_audio_append
build_realtime_audio_append-decode_base64 pcm h =
    let text = encode_base64 pcm in
    let plain = encode_base64-IsPlain pcm in
    (
      text,
      rw (escape_json_string-eq text plain) at (audio_found text (IsPlain-IsBytes text plain)),
      decode_base64-encode_base64 pcm h,
    )
