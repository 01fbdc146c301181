-- ===== src/Tests/Transport.antt =====
-- realtime_voice_transport.h and the codes of provider_request.h over a socket that records what it
-- sends.
use qh_voice_kit.Base.{none, ◌≡◌, refl, ◌≤◌, true, false, some, List, [], ◌∷◌, length, arith}
use qh_voice_kit.Base.Bytes.{Bytes, codes, bytes_eq}
use qh_voice_kit.Base.Search.{find_first, find_text, begins_with}
use qh_voice_kit.Json.{
  find_json_string, find_value, skip_space, parse_json_string, parse_loop, parse_round,
}
use qh_voice_kit.Provider.{WebSocketDisconnectHint}
use qh_voice_kit.Realtime.{unknown, parse_realtime_server_event, read_event, realtime_event_type}
use qh_voice_kit.Transport.{
  SocketLibrary, RealtimeVoiceTransport, ready, awaiting_session, handle_socket_event, handle_text,
  accept_event, handle_connected, send_text, called_back, queue_event, connected, text_event,
}
use qh_voice_kit.Transport.Queue.{steps-IsBounded}
use qh_voice_kit.Transport.Ready.{Welcomed, steps-Welcomed}
use qh_voice_kit.Transport.Steps.{Action, step, steps, popped, happened}

abbrev wire : SocketLibrary (List Bytes)
wire = record {
  open_socket = λ headers endpoint w. [];
  send_txt = λ message w. (true, none, message ∷ w);
  disconnect = λ w. (some [], w);
  disconnect_hint = λ w. WebSocketDisconnectHint.none;
  clear_disconnect_hint = λ w. w;
}

abbrev fresh : RealtimeVoiceTransport (List Bytes)
fresh = record {
  socket = [];
  session = record { session_id = codes "s"; instructions = codes "i"; voice = codes "v" };
  status = awaiting_session;
  extra_headers = [];
  provider_error_code = [];
  disconnect_code = codes "none";
  events = [];
  last_event_type = unknown;
  closing = false;
}

abbrev welcome : List Action
welcome =
    happened (text_event (some (codes "{\"type\":\"session.created\",\"id\":\"s\"}")))
    ∷ happened connected
    ∷ []

becomes_ready : (steps wire welcome fresh).status ≡ ready
unfolding steps step handle_socket_event handle_text accept_event handle_connected send_text
    called_back queue_event parse_realtime_server_event read_event realtime_event_type
    find_json_string find_value find_text begins_with find_first skip_space parse_json_string
    parse_loop parse_round bytes_eq
becomes_ready = refl

steps-Welcomed_example : Welcomed welcome
steps-Welcomed_example = steps-Welcomed wire welcome fresh (λ h. cc h) becomes_ready

steps-IsBounded_example : length (steps wire (popped ∷ welcome) fresh).events ≤ 48
steps-IsBounded_example = steps-IsBounded wire (popped ∷ welcome) fresh (omega arith)
