-- ===== src/Tests/Asr.antt =====
-- doubao_asr_protocol.h at concrete frames.
use qh_voice_kit.Base.{ℕ, none, All, ◌+◌, List, ◌≡◌, refl, true, false, some, [], ◌∷◌, take, arith}
use qh_voice_kit.Base.Bytes.{Bytes, codes, bytes_eq}
use qh_voice_kit.Base.Integers.{pos, negsuc}
use qh_voice_kit.Endpoint.{parse_secure_endpoint, split_authority, finish_endpoint, parse_port}
use qh_voice_kit.Json.{escape_json_string, escape_byte}
use qh_voice_kit.Asr.{
  final_text, provider_error, read_big_endian32, append_big_endian32, frame_doubao_asr_payload,
  build_doubao_asr_audio_frame, asr_result, asr_protocol_error, to_int32, read_sequence,
  read_message, read_after_header, parse_doubao_asr_server_frame,
}
use qh_voice_kit.Asr.Failure.{
  auth, no_failure, diagnostic, classify_asr_disconnect, classify_status, status_digits,
}
use qh_voice_kit.Asr.Transport.{AsrSocket, DoubaoAsrTransport, idle, connected, disconnected_event}
use qh_voice_kit.Asr.Transport.Failed.{
  Use, event, begins, sends, IsAccepted, Explained, use_steps, use_steps-Explained,
}
use qh_voice_kit.Base.Search.{find_first, find_last, find_text, begins_with}
use qh_voice_kit.Asr.Frames.{
  result_frame, result_json, parse_doubao_asr_server_frame-result_frame,
  parse_doubao_asr_server_frame-take,
}

last_audio :
    build_doubao_asr_audio_frame (some (7 ∷ 8 ∷ [])) 2 true
    ≡ 17 ∷ 34 ∷ 0 ∷ 0 ∷ 0 ∷ 0 ∷ 0 ∷ 2 ∷ 7 ∷ 8 ∷ []
unfolding build_doubao_asr_audio_frame frame_doubao_asr_payload append_big_endian32
last_audio = refl

-- An error with the sequence number -2.
error_frame :
    parse_doubao_asr_server_frame false
      (17 ∷ 243 ∷ 16 ∷ 0 ∷ 255 ∷ 255 ∷ 255 ∷ 254 ∷ 0 ∷ 0 ∷ 1 ∷ 1 ∷ 0 ∷ 0 ∷ 0 ∷ 0 ∷ [])
    ≡ asr_result provider_error true (negsuc 1) 257 []
unfolding parse_doubao_asr_server_frame read_after_header read_sequence read_message to_int32
    read_big_endian32
error_frame = refl

abbrev heard : Bytes
heard = codes "turn \"on\""

parse_doubao_asr_server_frame-result_frame_example :
    parse_doubao_asr_server_frame false (result_frame true (result_json heard (codes "}}")))
    ≡ asr_result final_text true (pos 0) 0 heard
unfolding escape_json_string escape_byte
parse_doubao_asr_server_frame-result_frame_example =
    parse_doubao_asr_server_frame-result_frame true heard (codes "}}") (omega arith) (omega arith)

parse_doubao_asr_server_frame-take_example :
    parse_doubao_asr_server_frame false (take 9 (result_frame true (codes "{}")))
    ≡ asr_protocol_error
parse_doubao_asr_server_frame-take_example =
    parse_doubao_asr_server_frame-take true (codes "{}") 9 (omega arith) (omega arith)

-- The socket counts what it sends, and calls the handler when it is told to disconnect.
abbrev socket : AsrSocket ℕ
socket = record {
  open_socket = λ _ _ w. w;
  send_bin = λ _ w. (true, none, w + 1);
  disconnect = λ w. (some [], w);
}

abbrev new_transport : DoubaoAsrTransport ℕ
new_transport = record {
  socket = 0;
  metadata = record {
    user_id = [];
    audio_format = [];
    sample_rate = 0;
    bits_per_sample = 0;
    channels = 0;
    model_name = [];
    result_type = [];
    show_utterances = false;
  };
  status = idle;
  extra_headers = [];
  transcript = [];
  provider_code = 0;
  failure = diagnostic no_failure (pos 0) 0;
}

abbrev uses : List Use
uses =
    begins (codes "wss://asr.example/v1") (codes "key") (codes "res") (codes "1") (codes "kit")
    ∷ event connected
    ∷ sends (some (7 ∷ 8 ∷ [])) 2
    ∷ event (disconnected_event (some (codes "HTTP 401")))
    ∷ []

accepted : All IsAccepted uses
unfolding parse_secure_endpoint find_first find_last bytes_eq split_authority finish_endpoint
    parse_port
accepted = ((λ e. cc e), (tt, (tt, (tt, tt))))

use_steps-Explained_example : Explained (use_steps socket uses new_transport)
use_steps-Explained_example = use_steps-Explained socket uses new_transport accepted refl

refused : (classify_asr_disconnect (codes "handshake failed: HTTP 401")).category ≡ auth
unfolding classify_asr_disconnect find_text begins_with status_digits to_int32 classify_status
refused = refl
