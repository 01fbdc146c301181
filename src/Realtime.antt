-- ===== src/Realtime.antt =====
-- firmware/esp32_voice_kit/realtime_voice_protocol.h: the events of the voice service and how they
-- are read. Children: the messages that are sent, and what is read of built and of received ones.
pub mod Messages
pub mod Codes
pub mod Controls
pub mod Deltas
pub mod Audio
use qh_voice_kit.Base.{
  ℕ, Bool, true, not, ◌&&◌, ◌||◌, Option, none, some, [], ◌∷◌, leb, ltb, ◌==◌, if◌then◌else◌,
  length,
}
use qh_voice_kit.Base.Bytes.{Bytes, codes, bytes_eq, is_empty}
use qh_voice_kit.Base.Decimal.{to_decimal}
use qh_voice_kit.Base.Search.{find_text}
use qh_voice_kit.Json.{find_json_string, find_json_unsigned_integer}

pub data RealtimeEventType : Type 0 where
  unknown protocol_error session_created session_closed input_committed : RealtimeEventType
  transcript_started transcript_delta transcript_completed transcript_failed : RealtimeEventType
  output_text_delta output_text_done : RealtimeEventType
  output_audio_started output_audio_delta output_audio_done : RealtimeEventType
  response_done response_canceled error : RealtimeEventType

pub record RealtimeEvent : Type 0 where
  pub kind : RealtimeEventType  -- the member `type`
  pub session_id : Bytes
  pub text : Bytes
  pub audio_base64 : Bytes
  pub error_code : Bytes

abbrev pub plain_event : RealtimeEventType → RealtimeEvent
plain_event kind = record {
  kind = kind;
  session_id = [];
  text = [];
  audio_base64 = [];
  error_code = [];
}

unfoldable pub realtime_event_diagnostic_name : RealtimeEventType → Bytes
realtime_event_diagnostic_name session_created = codes "session_created"
realtime_event_diagnostic_name session_closed = codes "session_closed"
realtime_event_diagnostic_name input_committed = codes "input_committed"
realtime_event_diagnostic_name transcript_started = codes "transcript_started"
realtime_event_diagnostic_name transcript_delta = codes "transcript_delta"
realtime_event_diagnostic_name transcript_completed = codes "transcript_completed"
realtime_event_diagnostic_name transcript_failed = codes "transcript_failed"
realtime_event_diagnostic_name output_text_delta = codes "output_text_delta"
realtime_event_diagnostic_name output_text_done = codes "output_text_done"
realtime_event_diagnostic_name output_audio_started = codes "output_audio_started"
realtime_event_diagnostic_name output_audio_delta = codes "output_audio_delta"
realtime_event_diagnostic_name output_audio_done = codes "output_audio_done"
realtime_event_diagnostic_name response_done = codes "response_done"
realtime_event_diagnostic_name response_canceled = codes "response_canceled"
realtime_event_diagnostic_name error = codes "error"
realtime_event_diagnostic_name protocol_error = codes "protocol_error"
realtime_event_diagnostic_name unknown = codes "none"

unfoldable pub remember_realtime_event_type :
    RealtimeEventType → RealtimeEventType → RealtimeEventType
remember_realtime_event_type previous unknown = previous
remember_realtime_event_type previous next = next

-- `std::isalnum`, `_`, `-` and `.`.
unfoldable pub is_code_character : ℕ → Bool
is_code_character value =
    (leb b'0' value && leb value b'9')
    || (leb b'A' value && leb value b'Z')
    || (leb b'a' value && leb value b'z')
    || value == b'_'
    || value == b'-'
    || value == b'.'

unfoldable pub all_code_characters : Bytes → Bool
all_code_characters [] = true
all_code_characters (value ∷ code) = is_code_character value && all_code_characters code

unfoldable pub safe_realtime_error_code : Bytes → Bytes
safe_realtime_error_code code =
    if is_empty code || ltb 48 (length code)
    then codes "provider_error"
    else if not (all_code_characters code)
    then codes "provider_error"
    else code

unfoldable pub realtime_event_type : Bytes → RealtimeEventType
unfolding bytes_eq
realtime_event_type type =
    if bytes_eq type (codes "session.created")
    then session_created
    else if bytes_eq type (codes "session.closed")
    then session_closed
    else if bytes_eq type (codes "input_audio_buffer.committed")
    then input_committed
    else if bytes_eq type (codes "conversation.item.input_audio_transcription.started")
    then transcript_started
    else if bytes_eq type (codes "conversation.item.input_audio_transcription.delta")
    then transcript_delta
    else if bytes_eq type (codes "conversation.item.input_audio_transcription.completed")
    then transcript_completed
    else if bytes_eq type (codes "conversation.item.input_audio_transcription.failed")
    then transcript_failed
    else if bytes_eq type (codes "response.output_text.delta")
    then output_text_delta
    else if bytes_eq type (codes "response.output_text.done")
    then output_text_done
    else if bytes_eq type (codes "response.output_audio.started")
    then output_audio_started
    else if bytes_eq type (codes "response.output_audio.delta")
    then output_audio_delta
    else if bytes_eq type (codes "response.output_audio.done")
    then output_audio_done
    else if bytes_eq type (codes "response.done")
    then response_done
    else if bytes_eq type (codes "response.canceled")
    then response_canceled
    else if bytes_eq type (codes "error")
    then error
    else unknown

-- `value_or`, and the index of a found text or 0.
abbrev or_else : Option Bytes → Bytes → Bytes
or_else none other = other
or_else (some text) other = text

abbrev index_or_start : Option ℕ → ℕ
index_or_start none = 0
index_or_start (some i) = i

abbrev code_of_status : Option ℕ → Bytes
code_of_status none = codes "provider_error"
code_of_status (some status) = to_decimal status

abbrev session_event : Option Bytes → RealtimeEvent
session_event none = plain_event protocol_error
session_event (some id) = record (plain_event session_created) { session_id = id }

abbrev audio_event : Option Bytes → RealtimeEvent
audio_event none = plain_event protocol_error
audio_event (some delta) = record (plain_event output_audio_delta) { audio_base64 = delta }

-- The `switch` on the type of the event.
unfoldable pub read_event : Bytes → RealtimeEventType → RealtimeEvent
unfolding find_json_string find_json_unsigned_integer find_text to_decimal
read_event json session_created =
    let start = index_or_start (find_text (codes "\"session\"") json) in
    session_event (find_json_string json (codes "id") start)
read_event json transcript_delta = record (plain_event transcript_delta) {
  text = or_else (find_json_string json (codes "delta") 0) [];
}
read_event json transcript_completed = record (plain_event transcript_completed) {
  text =
      or_else (find_json_string json (codes "transcript") 0)
        (or_else (find_json_string json (codes "text") 0) []);
}
read_event json output_text_delta = record (plain_event output_text_delta) {
  text = or_else (find_json_string json (codes "delta") 0) [];
}
read_event json output_text_done = record (plain_event output_text_done) {
  text = or_else (find_json_string json (codes "text") 0) [];
}
read_event json output_audio_delta = audio_event (find_json_string json (codes "delta") 0)
read_event json error =
    let start = index_or_start (find_text (codes "\"error\"") json) in
    let status = code_of_status (find_json_unsigned_integer json (codes "status_code") 0) in
    record (plain_event error) {
      error_code = or_else (find_json_string json (codes "code") start) status;
    }
read_event json kind = plain_event kind

unfoldable pub parse_realtime_server_event : Bytes → RealtimeEvent
unfolding realtime_event_type read_event
parse_realtime_server_event json = elim (find_json_string json (codes "type") 0) [
  | none ↦ plain_event protocol_error
  | some type ↦ read_event json (realtime_event_type type)
]
