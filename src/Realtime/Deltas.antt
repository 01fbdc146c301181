-- ===== src/Realtime/Deltas.antt =====
-- realtime_voice_protocol.h: what is read of a delta event.
use qh_voice_kit.Base.{◌≡◌, ap, some, [], ◌∷◌, ◌++◌, arith}
use qh_voice_kit.Base.Bytes.{Bytes, IsBytes, codes, bytes_eq}
use qh_voice_kit.Base.Search.{find_first, find_text, begins_with}
use qh_voice_kit.Json.{escape_byte, escape_json_string, find_json_string, find_value, skip_space}
use qh_voice_kit.Json.RoundTrip.{parse_json_string-escape_json_string}
use qh_voice_kit.Realtime.{
  output_audio_delta, output_text_delta, plain_event, audio_event, or_else, read_event,
  realtime_event_type, parse_realtime_server_event,
}

-- An event of a type with the bytes of its delta in quotes, and any further text.
abbrev pub delta_json : Bytes → Bytes → Bytes → Bytes
delta_json type delta rest =
    codes "{\"type\":\""
    ++ (type ++ (codes "\",\"delta\":\"" ++ (escape_json_string delta ++ (b'"' ∷ rest))))

abbrev pub audio_type : Bytes
audio_type = codes "response.output_audio.delta"

abbrev pub text_type : Bytes
text_type = codes "response.output_text.delta"

module _ (delta rest : Bytes) where
  audio_type_found :
      find_json_string (delta_json audio_type delta rest) (codes "type") 0 ≡ some audio_type
  unfolding find_json_string find_value find_text begins_with find_first skip_space
      escape_json_string escape_byte
  audio_type_found =
      parse_json_string-escape_json_string audio_type
        (codes ",\"delta\":\"" ++ (escape_json_string delta ++ (b'"' ∷ rest))) (omega arith)

  text_type_found :
      find_json_string (delta_json text_type delta rest) (codes "type") 0 ≡ some text_type
  unfolding find_json_string find_value find_text begins_with find_first skip_space
      escape_json_string escape_byte
  text_type_found =
      parse_json_string-escape_json_string text_type
        (codes ",\"delta\":\"" ++ (escape_json_string delta ++ (b'"' ∷ rest))) (omega arith)

  audio_delta_found :
      IsBytes delta
      → find_json_string (delta_json audio_type delta rest) (codes "delta") 0 ≡ some delta
  unfolding find_json_string find_value find_text begins_with find_first skip_space
  audio_delta_found h = parse_json_string-escape_json_string delta rest h

  text_delta_found :
      IsBytes delta
      → find_json_string (delta_json text_type delta rest) (codes "delta") 0 ≡ some delta
  unfolding find_json_string find_value find_text begins_with find_first skip_space
  text_delta_found h = parse_json_string-escape_json_string delta rest h

  -- An event of the audio type with an escaped delta, whatever follows, is read as an audio delta of
  -- these bytes, and one of the text type as a text delta of them.
  pub parse_realtime_server_event-delta_json :
      IsBytes delta
      → (parse_realtime_server_event (delta_json audio_type delta rest)
          ≡ record (plain_event output_audio_delta) { audio_base64 = delta })
        × (parse_realtime_server_event (delta_json text_type delta rest)
            ≡ record (plain_event output_text_delta) { text = delta })
  unfolding parse_realtime_server_event read_event realtime_event_type bytes_eq
  parse_realtime_server_event-delta_json h = (
    rw (audio_type_found, parse_realtime_server_event) (ap audio_event (audio_delta_found h)),
    rw (text_type_found, parse_realtime_server_event)
        (ap (λ d. record (plain_event output_text_delta) { text = or_else d [] })
          (text_delta_found h)),
  )
