-- ===== src/Tests/Sse.antt =====
-- doubao_tts_sse.h on a short stream, whole and cut in parts.
use qh_voice_kit.Base.{
  ◌≡◌, ◌≤◌, refl, true, false, none, some, [], ◌∷◌, arith, List, length, if◌then◌else◌,
}
use qh_voice_kit.Base.Bytes.{Bytes, codes, is_empty}
use qh_voice_kit.Base.Search.{begins_with, find_first, find_text}
use qh_voice_kit.Base64
use qh_voice_kit.Json.{
  find_json_string, find_value, skip_space, parse_json_string, parse_loop, parse_round,
  parse_escape,
}
use qh_voice_kit.Sse.{
  DoubaoTtsSseParser, new_parser, fail, add_audio, audio_event, handle_event, read_event,
  dispatch_event, skip_blanks, event_number, set_event, event_line, data_line, process_line,
  strip_return, feed_byte, feed_bytes, feed, finish_line, finish_status, finish, is_error,
}
use qh_voice_kit.Sse.Text.{
  parse_integer, find_json_integer, base64_value, block_bytes, decode_block, decode_blocks,
  decode_base64,
}
use qh_voice_kit.Sse.Decoder.{as_option, decode_base64-agrees}
use qh_voice_kit.Sse.Bounded.{feed_all, length-feed_all, feed-error}
use qh_voice_kit.Sse.Chunks.{feed_all-joined, joined}

abbrev audio_text : Bytes
audio_text = codes "event: 352\r\ndata: {\"code\":0,\"data\":\"AQID\"}\n\n"

abbrev end_text : Bytes
end_text = codes "event: 152\ndata: {\"code\":20000000}\n\n"

abbrev received : List Bytes → DoubaoTtsSseParser
received chunks = (finish (feed_all chunks (new_parser 8))).1

plays : (received (audio_text ∷ end_text ∷ [])).audio ≡ 1 ∷ 2 ∷ 3 ∷ []
unfolding feed_all feed feed_bytes feed_byte strip_return process_line event_line data_line
    skip_blanks event_number set_event dispatch_event read_event handle_event audio_event add_audio
    fail finish finish_line finish_status find_json_integer parse_integer find_json_string
    find_value find_text find_first skip_space begins_with parse_json_string parse_loop parse_round
    parse_escape decode_base64 decode_blocks decode_block base64_value block_bytes
plays = refl

-- 4294967648 is 2^32 + 352.
number_wraps : event_number 0 (codes "4294967648") ≡ some 352
unfolding event_number
number_wraps = refl

bad_text : (feed (codes "event:x\n") (feed_all (audio_text ∷ []) (new_parser 8))).0 ≡ false
unfolding feed_all feed feed_bytes feed_byte strip_return process_line event_line data_line
    skip_blanks event_number set_event dispatch_event read_event handle_event audio_event add_audio
    fail find_json_integer parse_integer find_json_string find_value find_text find_first skip_space
    begins_with parse_json_string parse_loop parse_round parse_escape decode_base64 decode_blocks
    decode_block base64_value block_bytes
bad_text = refl

length-feed_all_example :
    (length (feed_all (audio_text ∷ end_text ∷ []) (new_parser 8)).audio ≤ 8)
    × (length (finish (feed_all (audio_text ∷ end_text ∷ []) (new_parser 8))).1.audio ≤ 8)
length-feed_all_example = length-feed_all 8 (omega arith) (audio_text ∷ end_text ∷ [])

feed-error_example :
    (is_error (feed (codes "event:x\n") (feed_all (audio_text ∷ []) (new_parser 8))).1 ≡ true)
    × ((feed (codes "event:x\n") (feed_all (audio_text ∷ []) (new_parser 8))).1.audio ≡ [])
    × (feed end_text (feed (codes "event:x\n") (feed_all (audio_text ∷ []) (new_parser 8))).1
        ≡ (false, (feed (codes "event:x\n") (feed_all (audio_text ∷ []) (new_parser 8))).1))
    × (finish (feed (codes "event:x\n") (feed_all (audio_text ∷ []) (new_parser 8))).1
        ≡ (false, (feed (codes "event:x\n") (feed_all (audio_text ∷ []) (new_parser 8))).1))
feed-error_example =
    feed-error 8 (omega arith) (audio_text ∷ []) (codes "event:x\n") end_text bad_text

feed_all-joined_example :
    feed_all (audio_text ∷ end_text ∷ []) (new_parser 8)
    ≡ (feed (joined (audio_text ∷ end_text ∷ [])) (new_parser 8)).1
feed_all-joined_example = feed_all-joined 8 (omega arith) (audio_text ∷ end_text ∷ [])

decode_base64-agrees_example :
    decode_base64 (codes "AQI=")
    ≡ (if is_empty (codes "AQI=") then none else as_option (Base64.decode_base64 (codes "AQI=")))
decode_base64-agrees_example = decode_base64-agrees (codes "AQI=")
