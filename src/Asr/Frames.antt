-- ===== src/Asr/Frames.antt =====
-- doubao_asr_protocol.h: the parser on the frame of a result, whole and cut short.
use qh_voice_kit.Base.{
  take-length, ℕ, zero, suc, ◌+◌, ◌^◌, ◌<◌, ◌≡◌, refl, ap, ◌∙◌, Bool, true, false, some, [], ◌∷◌,
  ◌++◌, arith, ltb, bit_or, if◌then◌else◌, length, take, length-take,
}
use qh_voice_kit.Base.Bytes.{Bytes, IsBytes, codes}
use qh_voice_kit.Base.Integers.{ℤ, pos}
use qh_voice_kit.Base.Search.{find_first, find_text, begins_with}
use qh_voice_kit.Base.Words.{◌<<<◌, u8, u32}
use qh_voice_kit.Json.{escape_json_string, find_json_string, find_value, skip_space}
use qh_voice_kit.Json.RoundTrip.{parse_json_string-escape_json_string}
use qh_voice_kit.Asr.{
  intermediate_text, final_text, append_big_endian32, frame_doubao_asr_payload, asr_result,
  asr_protocol_error, read_sequence, read_text, read_message, read_after_header,
  parse_doubao_asr_server_frame,
}
use qh_voice_kit.Asr.Numbers.{read_big_endian32-append}

-- The frame of a result, final or not.
abbrev pub result_frame : Bool → Bytes → Bytes
result_frame final json =
    frame_doubao_asr_payload 0x9 (if final then 0x2 else 0x0) 0x1 (some json) (length json)

-- A result with the given text, and anything behind it.
abbrev pub result_json : Bytes → Bytes → Bytes
result_json text rest =
    codes "{\"result\":{\"text\":\"" ++ (escape_json_string text ++ (b'"' ∷ rest))

text_found :
    (text rest : Bytes)
    → IsBytes text
    → find_json_string (result_json text rest) (codes "text") 1 ≡ some text
unfolding find_json_string find_value find_text begins_with find_first skip_space
text_found text rest h = parse_json_string-escape_json_string text rest h

read_text-result_json :
    (final : Bool) (sequence : ℤ) (text rest : Bytes)
    → IsBytes text
    → read_text final sequence (result_json text rest)
      ≡ asr_result (if final then final_text else intermediate_text) final sequence 0 text
unfolding read_text find_text begins_with
read_text-result_json final sequence text rest h = rw (text_found text rest h, read_text) refl

header_read :
    (final : Bool) (payload : Bytes)
    → parse_doubao_asr_server_frame false (
        0x11
        ∷ u8 (bit_or (0x9 <<< 4) (if final then 0x2 else 0x0))
        ∷ u8 (0x1 <<< 4)
        ∷ 0x00
        ∷ payload)
      ≡ read_message 0x9 final 0x1 (pos 0) payload
unfolding parse_doubao_asr_server_frame read_after_header read_sequence
header_read true payload =
    let long : ltb (suc (suc (suc (suc (length payload))))) 4 ≡ false = ground arith in
    rw (long, parse_doubao_asr_server_frame) refl
header_read false payload =
    let long : ltb (suc (suc (suc (suc (length payload))))) 4 ≡ false = ground arith in
    rw (long, parse_doubao_asr_server_frame) refl

module _ (final : Bool) (size : ℕ) (payload : Bytes) (small : size < 2 ^ 32) where
  message_read : read_message 0x9 final 0x1 (pos 0) (append_big_endian32 [] size ++ payload) ≡ (
      if ltb (length payload) size
      then asr_protocol_error
      else read_text final (pos 0) (take size payload))
  unfolding read_message append_big_endian32
  message_read =
      let long : ltb (suc (suc (suc (suc (length payload))))) 4 ≡ false = ground arith in
      rw (long, read_big_endian32-append size payload small, read_message) refl

payload_kept : (json : Bytes) → (if ltb 0 (length json) then take (length json) json else []) ≡ json
payload_kept [] = refl
payload_kept (c ∷ json) =
    let some_bytes : ltb 0 (suc (length json)) ≡ true = ground arith in
    rw (some_bytes, take-length json) refl

abbrev behind_header : Bool → Bytes → Bytes
behind_header final payload =
    0x11 ∷ u8 (bit_or (0x9 <<< 4) (if final then 0x2 else 0x0)) ∷ u8 (0x1 <<< 4) ∷ 0x00 ∷ payload

frame_shape :
    (final : Bool) (json : Bytes)
    → length json < 2 ^ 32
    → result_frame final json ≡ behind_header final (append_big_endian32 [] (length json) ++ json)
unfolding frame_doubao_asr_payload append_big_endian32
frame_shape final json h =
    let size : u32 (length json) ≡ length json = omega arith in rw (size, payload_kept json) refl

whole_payload :
    (final : Bool) (json : Bytes)
    → (if ltb (length json) (length json)
        then asr_protocol_error
        else read_text final (pos 0) (take (length json) json))
      ≡ read_text final (pos 0) json
whole_payload final json =
    let fits : ltb (length json) (length json) ≡ false = ground arith in
    rw (fits, take-length json) refl

-- The frame of a result, final or not, whose text is any bytes escaped for JSON, with anything
-- behind the text, is parsed to a result of this text, of the status final or intermediate as the
-- frame says. The payload has fewer than 2^32 bytes.
pub parse_doubao_asr_server_frame-result_frame :
    (final : Bool) (text rest : Bytes)
    → IsBytes text
    → length (result_json text rest) < 2 ^ 32
    → parse_doubao_asr_server_frame false (result_frame final (result_json text rest))
      ≡ asr_result (if final then final_text else intermediate_text) final (pos 0) 0 text
parse_doubao_asr_server_frame-result_frame final text rest h small =
    let json = result_json text rest in
    ap (λ (f : Bytes). parse_doubao_asr_server_frame false f) (frame_shape final json small)
    ∙ header_read final (append_big_endian32 [] (length json) ++ json)
    ∙ message_read final (length json) json small
    ∙ whole_payload final json
    ∙ read_text-result_json final (pos 0) text rest h

cut_shape :
    (final : Bool) (json : Bytes) (n : ℕ)
    → length json < 2 ^ 32
    → n < length json + 8
    → parse_doubao_asr_server_frame false
        (take n (behind_header final (append_big_endian32 [] (length json) ++ json)))
      ≡ asr_protocol_error
unfolding parse_doubao_asr_server_frame read_after_header read_sequence read_message
    append_big_endian32
cut_shape final json zero small h = refl
cut_shape final json (suc zero) small h = refl
cut_shape final json (suc (suc zero)) small h = refl
cut_shape final json (suc (suc (suc zero))) small h = refl
cut_shape true json (suc (suc (suc (suc zero)))) small h = refl
cut_shape false json (suc (suc (suc (suc zero)))) small h = refl
cut_shape true json (suc (suc (suc (suc (suc zero))))) small h = refl
cut_shape false json (suc (suc (suc (suc (suc zero))))) small h = refl
cut_shape true json (suc (suc (suc (suc (suc (suc zero)))))) small h = refl
cut_shape false json (suc (suc (suc (suc (suc (suc zero)))))) small h = refl
cut_shape true json (suc (suc (suc (suc (suc (suc (suc zero))))))) small h = refl
cut_shape false json (suc (suc (suc (suc (suc (suc (suc zero))))))) small h = refl
cut_shape final json (suc (suc (suc (suc (suc (suc (suc (suc n)))))))) small h =
    let short : ltb (length (take n json)) (length json) ≡ true =
      ground (arith, h, length-take n json) in
    header_read final (append_big_endian32 [] (length json) ++ take n json)
    ∙ message_read final (length json) (take n json) small
    ∙ rw short refl

-- A frame of a result that has lost bytes at its end, wherever it is cut, is a protocol error. The
-- payload is anything of fewer than 2^32 bytes.
pub parse_doubao_asr_server_frame-take :
    (final : Bool) (json : Bytes) (n : ℕ)
    → length json < 2 ^ 32
    → n < length json + 8
    → parse_doubao_asr_server_frame false (take n (result_frame final json)) ≡ asr_protocol_error
parse_doubao_asr_server_frame-take final json n small h =
    ap (λ (f : Bytes). parse_doubao_asr_server_frame false (take n f))
      (frame_shape final json small)
    ∙ cut_shape final json n small h
