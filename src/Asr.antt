-- ===== src/Asr.antt =====
-- firmware/esp32_voice_kit/doubao_asr_protocol.h: the frames of the speech recognition service.
-- Children: big-endian numbers, and what the parser makes of whole and of cut frames.
pub mod Numbers
pub mod Frames
pub mod Failure
pub mod Transport
use qh_voice_kit.Base.{
  ℕ, ◌+◌, ◌-◌, ◌*◌, ◌^◌, bit_and, bit_or, Bool, true, false, not, ◌||◌, Option, none, some, [], ◌∷◌,
  ◌++◌, ltb, ◌==◌, if◌then◌else◌, get_or, length, take, drop,
}
use qh_voice_kit.Base.Bytes.{Bytes, codes}
use qh_voice_kit.Base.Decimal.{to_decimal}
use qh_voice_kit.Base.Integers.{ℤ, pos, negsuc}
use qh_voice_kit.Base.Search.{find_text}
use qh_voice_kit.Base.Words.{◌<<<◌, ◌>>>◌, u8, u32}
use qh_voice_kit.Json.{◌>>=◌, escape_json_string, find_json_string}

pub record DoubaoAsrMetadata : Type 0 where
  pub user_id : Bytes
  pub audio_format : Bytes
  pub sample_rate : ℕ  -- uint32_t
  pub bits_per_sample : ℕ  -- uint8_t
  pub channels : ℕ  -- uint8_t
  pub model_name : Bytes
  pub result_type : Bytes
  pub show_utterances : Bool

pub data DoubaoAsrStatus : Type 0 where
  intermediate_text final_text acknowledged provider_error protocol_error : DoubaoAsrStatus

pub record DoubaoAsrResult : Type 0 where
  pub status : DoubaoAsrStatus
  pub final_frame : Bool
  pub sequence : ℤ  -- int32_t
  pub provider_code : ℕ  -- uint32_t
  pub text : Bytes

-- The four bytes that a pointer stands at; the callers have tested that there are four.
unfoldable pub read_big_endian32 : Bytes → ℕ
read_big_endian32 (a ∷ b ∷ c ∷ d ∷ _) = bit_or (bit_or (bit_or (a <<< 24) (b <<< 16)) (c <<< 8)) d
read_big_endian32 _ = 0

unfoldable pub append_big_endian32 : Bytes → ℕ → Bytes
append_big_endian32 output value =
    output ++ (u8 (value >>> 24) ∷ u8 (value >>> 16) ∷ u8 (value >>> 8) ∷ u8 value ∷ [])

-- The bytes of a payload; a null pointer is `none`.
abbrev pub payload_bytes : Option Bytes → ℕ → Bytes
payload_bytes none payload_size = []
payload_bytes (some payload) payload_size = take payload_size payload

unfoldable pub frame_doubao_asr_payload : ℕ → ℕ → ℕ → Option Bytes → ℕ → Bytes
unfolding append_big_endian32
frame_doubao_asr_payload message_type flags serialization payload payload_size =
    let header =
      0x11 ∷ u8 (bit_or (message_type <<< 4) flags) ∷ u8 (serialization <<< 4) ∷ 0x00 ∷ [] in
    append_big_endian32 header (u32 payload_size)
    ++ (if ltb 0 payload_size then payload_bytes payload payload_size else [])

unfoldable pub asr_request_json : DoubaoAsrMetadata → Bytes
asr_request_json metadata =
    codes "{\"user\":{\"uid\":\""
    ++ (escape_json_string metadata.user_id
        ++ (codes "\"},\"audio\":{\"format\":\""
            ++ (escape_json_string metadata.audio_format
                ++ (codes "\",\"rate\":"
                    ++ (to_decimal metadata.sample_rate
                        ++ (codes ",\"bits\":"
                            ++ (to_decimal metadata.bits_per_sample
                                ++ (codes ",\"channel\":"
                                    ++ (to_decimal metadata.channels
                                        ++ (codes "},\"request\":{\"model_name\":\""
                                            ++ (escape_json_string metadata.model_name
                                                ++ (codes "\",\"result_type\":\""
                                                    ++ (escape_json_string metadata.result_type
                                                        ++ (codes "\",\"show_utterances\":"
                                                            ++ ((if metadata.show_utterances
                                                            then codes "true"
                                                            else codes "false")
                                                            ++ codes "}}")))))))))))))))

unfoldable pub build_doubao_asr_full_client_frame : DoubaoAsrMetadata → Bytes
unfolding asr_request_json frame_doubao_asr_payload
build_doubao_asr_full_client_frame metadata =
    let json = asr_request_json metadata in
    frame_doubao_asr_payload 0x1 0x0 0x1 (some json) (length json)

unfoldable pub build_doubao_asr_audio_frame : Option Bytes → ℕ → Bool → Bytes
unfolding frame_doubao_asr_payload
build_doubao_asr_audio_frame pcm pcm_size final_frame =
    frame_doubao_asr_payload 0x2 (if final_frame then 0x2 else 0x0) 0x0 pcm pcm_size

abbrev pub asr_result : DoubaoAsrStatus → Bool → ℤ → ℕ → Bytes → DoubaoAsrResult
asr_result status final_frame sequence code text = record {
  status = status;
  final_frame = final_frame;
  sequence = sequence;
  provider_code = code;
  text = text;
}

abbrev pub asr_protocol_error : DoubaoAsrResult
asr_protocol_error = asr_result protocol_error false (pos 0) 0 []

-- `static_cast<int32_t>` of a `uint32_t`.
unfoldable pub to_int32 : ℕ → ℤ
to_int32 value = if ltb value (2 ^ 31) then pos value else negsuc (2 ^ 32 - 1 - value)

-- The sequence number that the flags announce, and what follows it.
unfoldable pub read_sequence : ℕ → Bytes → Option (ℤ × Bytes)
unfolding to_int32 read_big_endian32
read_sequence flags rest =
    if bit_and flags 0x1 == 0
    then some (pos 0, rest)
    else if ltb (length rest) 4
    then none
    else some (to_int32 (read_big_endian32 rest), drop 4 rest)

-- The text of a result, behind the test of the size of its payload.
unfoldable pub read_text : Bool → ℤ → Bytes → DoubaoAsrResult
unfolding find_text
read_text final_frame sequence json =
    elim (find_text (codes "\"result\"") json >>= find_json_string json (codes "text")) [
      | none ↦ asr_protocol_error
      | some text ↦
          asr_result (if final_frame then final_text else intermediate_text) final_frame sequence 0
            text
    ]

-- The branches on the type of the message, behind the sequence number.
unfoldable pub read_message : ℕ → Bool → ℕ → ℤ → Bytes → DoubaoAsrResult
unfolding read_big_endian32 read_text
read_message message_type final_frame serialization sequence rest =
    if message_type == 0xF
    then if ltb (length rest) 8
      then asr_protocol_error
      else if ltb (length rest - 8) (read_big_endian32 (drop 4 rest))
      then asr_protocol_error
      else asr_result provider_error final_frame sequence (read_big_endian32 rest) []
    else if message_type == 0xB
    then asr_result acknowledged final_frame sequence 0 []
    else if not (message_type == 0x9) || not (serialization == 0x1) || ltb (length rest) 4
    then asr_protocol_error
    else if ltb (length (drop 4 rest)) (read_big_endian32 rest)
    then asr_protocol_error
    else read_text final_frame sequence (take (read_big_endian32 rest) (drop 4 rest))

-- Behind the test of the header's size.
unfoldable pub read_after_header : ℕ → ℕ → Bytes → DoubaoAsrResult
unfolding read_sequence read_message
read_after_header second third rest =
    let flags = bit_and second 0x0F in
    if not (bit_and third 0x0F == 0) then asr_protocol_error else (elim (read_sequence flags rest) [
      | none ↦ asr_protocol_error
      | some (sequence, behind) ↦
          read_message (second >>> 4) (not (bit_and flags 0x2 == 0)) (third >>> 4) sequence behind
    ])

unfoldable pub parse_doubao_asr_server_frame : Bool → Bytes → DoubaoAsrResult
unfolding read_after_header
parse_doubao_asr_server_frame is_null frame =
    let header_size = bit_and (get_or frame 0 0) 0x0F * 4 in
    if is_null || ltb (length frame) 4 || not (get_or frame 0 0 >>> 4 == 0x1)
    then asr_protocol_error
    else if ltb header_size 4 || ltb (length frame) header_size
    then asr_protocol_error
    else read_after_header (get_or frame 1 0) (get_or frame 2 0) (drop header_size frame)
