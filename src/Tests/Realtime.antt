-- ===== src/Tests/Realtime.antt =====
-- realtime_voice_protocol.h at concrete messages.
use qh_voice_kit.Base.{◌≡◌, refl, true, some, [], ◌∷◌, arith}
use qh_voice_kit.Base.Bytes.{Bytes, codes, bytes_eq}
use qh_voice_kit.Base.Search.{find_first, find_text, begins_with}
use qh_voice_kit.Base.Decimal.{to_decimal}
use qh_voice_kit.Base64.{decode_base64}
use qh_voice_kit.Json.{
  find_json_string, find_json_unsigned_integer, find_value, skip_space, parse_json_string,
  parse_loop, parse_round, parse_unsigned,
}
use qh_voice_kit.Realtime.{
  plain_event, error, session_created, output_audio_delta, output_text_delta, read_event,
  realtime_event_type, parse_realtime_server_event,
}
use qh_voice_kit.Realtime.Audio.{build_realtime_audio_append-decode_base64}
use qh_voice_kit.Realtime.Deltas.{
  delta_json, audio_type, text_type, parse_realtime_server_event-delta_json,
}
use qh_voice_kit.Realtime.Messages.{build_realtime_audio_append}

session :
    parse_realtime_server_event
      (codes "{\"type\": \"session.created\",\"session\":{\"id\":\"s1\"}}")
    ≡ record (plain_event session_created) { session_id = codes "s1" }
unfolding parse_realtime_server_event read_event realtime_event_type find_json_string find_value
    find_text begins_with find_first skip_space parse_json_string parse_loop parse_round bytes_eq
session = refl

status :
    parse_realtime_server_event (codes "{\"type\":\"error\",\"status_code\": 403}")
    ≡ record (plain_event error) { error_code = codes "403" }
unfolding parse_realtime_server_event read_event realtime_event_type find_json_string find_value
    find_text begins_with find_first skip_space parse_json_string parse_loop parse_round bytes_eq
    find_json_unsigned_integer parse_unsigned to_decimal
status = refl

build_realtime_audio_append-decode_base64_example :
    (text : Bytes) × (find_json_string
        (build_realtime_audio_append (0 ∷ 255 ∷ []))
        (codes "audio")
        0
      ≡ some text)
    × (decode_base64 text ≡ (true, 0 ∷ 255 ∷ []))
build_realtime_audio_append-decode_base64_example =
    build_realtime_audio_append-decode_base64 (0 ∷ 255 ∷ []) (omega arith)

parse_realtime_server_event-delta_json_example :
    (parse_realtime_server_event (delta_json audio_type (codes "AA==") (codes "}"))
      ≡ record (plain_event output_audio_delta) { audio_base64 = codes "AA==" })
    × (parse_realtime_server_event (delta_json text_type (codes "AA==") (codes "}"))
        ≡ record (plain_event output_text_delta) { text = codes "AA==" })
parse_realtime_server_event-delta_json_example =
    parse_realtime_server_event-delta_json (codes "AA==") (codes "}") (omega arith)
