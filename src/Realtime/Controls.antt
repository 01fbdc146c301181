-- ===== src/Realtime/Controls.antt =====
-- realtime_voice_protocol.h: what a reader finds in a control message.
use qh_voice_kit.Base.{◌≡◌, some, ◌++◌, arith}
use qh_voice_kit.Base.Bytes.{Bytes, IsBytes, codes}
use qh_voice_kit.Base.Search.{find_first, find_text, begins_with}
use qh_voice_kit.Json.{escape_byte, escape_json_string, find_json_string, find_value, skip_space}
use qh_voice_kit.Json.RoundTrip.{parse_json_string-escape_json_string}
use qh_voice_kit.Realtime.Messages.{
  build_realtime_control_event, build_realtime_input_commit, build_realtime_mute_commit,
  build_realtime_unmute_commit, build_realtime_session_close,
}

-- A message whose type and identifier are found.
abbrev pub Reads : Bytes → Bytes → Bytes → Type 0
Reads message type event_id =
    (find_json_string message (codes "type") 0 ≡ some type)
    × (find_json_string message (codes "event_id") 0 ≡ some event_id)

pub data Control : Type 0 where
  input_commit mute_commit unmute_commit session_close : Control

abbrev pub type_of : Control → Bytes
type_of input_commit = codes "input_audio_buffer.commit"
type_of mute_commit = codes "input_audio_mute.commit"
type_of unmute_commit = codes "input_audio_unmute.commit"
type_of session_close = codes "session.close"

abbrev pub build : Control → Bytes → Bytes
build input_commit = build_realtime_input_commit
build mute_commit = build_realtime_mute_commit
build unmute_commit = build_realtime_unmute_commit
build session_close = build_realtime_session_close

type_found :
    (type event_id : Bytes)
    → IsBytes type
    → find_json_string (build_realtime_control_event type event_id) (codes "type") 0 ≡ some type
unfolding build_realtime_control_event find_json_string find_value find_text begins_with find_first
    skip_space
type_found type event_id h =
    parse_json_string-escape_json_string type
      (codes ",\"event_id\":\"" ++ (escape_json_string event_id ++ codes "\"}")) h

id_found :
    (k : Control) (event_id : Bytes)
    → IsBytes event_id
    → find_json_string (build_realtime_control_event (type_of k) event_id) (codes "event_id") 0
      ≡ some event_id
unfolding build_realtime_control_event find_json_string find_value find_text begins_with find_first
    skip_space escape_json_string escape_byte
id_found input_commit event_id h = parse_json_string-escape_json_string event_id (codes "}") h
id_found mute_commit event_id h = parse_json_string-escape_json_string event_id (codes "}") h
id_found unmute_commit event_id h = parse_json_string-escape_json_string event_id (codes "}") h
id_found session_close event_id h = parse_json_string-escape_json_string event_id (codes "}") h

-- In each of the four control messages, whatever bytes the identifier has, the searches of the
-- program find the type of the message and the identifier.
pub build-Reads :
    (k : Control) (event_id : Bytes)
    → IsBytes event_id
    → Reads (build k event_id) (type_of k) event_id
unfolding build_realtime_input_commit build_realtime_mute_commit build_realtime_unmute_commit
    build_realtime_session_close
build-Reads input_commit e h = (type_found _ e (omega arith), id_found input_commit e h)
build-Reads mute_commit e h = (type_found _ e (omega arith), id_found mute_commit e h)
build-Reads unmute_commit e h = (type_found _ e (omega arith), id_found unmute_commit e h)
build-Reads session_close e h = (type_found _ e (omega arith), id_found session_close e h)
