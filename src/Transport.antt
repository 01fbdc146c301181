-- ===== src/Transport.antt =====
-- firmware/esp32_voice_kit/realtime_voice_transport.h: the connection to the voice service and its
-- queue of events. The WebSocket client is a library and a parameter. `disconnect` and `sendTXT` may
-- call `handleSocketEvent` with WStype_DISCONNECTED before they return; their results say with what
-- reason.
-- Children: the calls as steps, and what holds after any of them.
pub mod Steps
pub mod Queue
pub mod Ready
use qh_voice_kit.Base.{
  ℕ, Bool, true, false, not, ◌&&◌, ◌||◌, Option, none, some, List, [], ◌∷◌, ◌++◌, leb, ◌==◌,
  if◌then◌else◌, length,
}
use qh_voice_kit.Base.Bytes.{Bytes, codes, is_empty}
use qh_voice_kit.Config.{RealtimeVoiceConfig}
use qh_voice_kit.Endpoint.{SecureEndpoint, parse_secure_endpoint}
use qh_voice_kit.Provider.{
  WebSocketDisconnectHint, safe_web_socket_disconnect_code, format_web_socket_extra_headers,
}
use qh_voice_kit.Realtime.{
  RealtimeEvent, RealtimeEventType, unknown, protocol_error, session_created, error, plain_event,
  parse_realtime_server_event, remember_realtime_event_type,
}
use qh_voice_kit.Realtime.Messages.{
  RealtimeSessionConfig, realtime_voice_endpoint, build_realtime_transport_request,
  build_realtime_session_create, build_realtime_audio_append, build_realtime_input_commit,
  build_realtime_mute_commit, build_realtime_unmute_commit, build_realtime_session_close,
}

pub data RealtimeTransportStatus : Type 0 where
  idle connecting awaiting_session ready provider_failed protocol_failed disconnected :
      RealtimeTransportStatus

-- The number of the status in its enumeration, and `==`.
abbrev pub status_value : RealtimeTransportStatus → ℕ
status_value idle = 0
status_value connecting = 1
status_value awaiting_session = 2
status_value ready = 3
status_value provider_failed = 4
status_value protocol_failed = 5
status_value disconnected = 6

abbrev pub has_status : RealtimeTransportStatus → RealtimeTransportStatus → Bool
has_status s t = status_value s == status_value t

-- The calls of the client library, over the state `W` of the socket. `open_socket` stands for
-- `setExtraHeaders`, `setReconnectInterval(0)` and `beginSslWithBundle`.
pub record SocketLibrary (W : Type 0) : Type 0 where
  pub open_socket : Bytes → SecureEndpoint → W → W
  pub send_txt : Bytes → W → Bool × Option Bytes × W
  pub disconnect : W → Option Bytes × W
  pub disconnect_hint : W → WebSocketDisconnectHint
  pub clear_disconnect_hint : W → W

pub record RealtimeVoiceTransport (W : Type 0) : Type 0 where
  pub socket : W
  pub session : RealtimeSessionConfig
  pub status : RealtimeTransportStatus
  pub extra_headers : Bytes
  pub provider_error_code : Bytes
  pub disconnect_code : Bytes
  pub events : List RealtimeEvent  -- the front first
  pub last_event_type : RealtimeEventType
  pub closing : Bool

abbrev pub maximum_queued_events : ℕ
maximum_queued_events = 48

abbrev pub pcm_frame_bytes : ℕ
pcm_frame_bytes = 640

-- `WStype_t` with its payload; a null payload is `none`.
pub data SocketEvent : Type 0 where
  connected socket_error other_event : SocketEvent
  disconnected_event text_event : Option Bytes → SocketEvent

abbrev pub bytes_or_empty : Option Bytes → Bytes
bytes_or_empty none = []
bytes_or_empty (some bytes) = bytes

module _ {W : Type 0} (lib : SocketLibrary W) where
  unfoldable pub handle_disconnected : Bytes → RealtimeVoiceTransport W → RealtimeVoiceTransport W
  handle_disconnected reason t =
      let code = safe_web_socket_disconnect_code (lib.disconnect_hint t.socket) reason in
      let noted =
        if not t.closing
          && not (has_status t.status provider_failed)
          && not (has_status t.status protocol_failed)
        then record t { disconnect_code = code; status = disconnected }
        else t in
      record noted { socket = lib.clear_disconnect_hint noted.socket }

  -- The handler's call inside a call of the library, when there is one.
  unfoldable pub called_back : Option Bytes → RealtimeVoiceTransport W → RealtimeVoiceTransport W
  unfolding handle_disconnected
  called_back none t = t
  called_back (some reason) t = handle_disconnected reason t

  unfoldable pub disconnect_socket : RealtimeVoiceTransport W → RealtimeVoiceTransport W
  unfolding called_back
  disconnect_socket t =
      let (called, w) = lib.disconnect t.socket in called_back called (record t { socket = w })

  unfoldable pub send_text : Bytes → RealtimeVoiceTransport W → Bool × RealtimeVoiceTransport W
  unfolding called_back
  send_text message t =
      let (sent, called, w) = lib.send_txt message t.socket in
      (sent, called_back called (record t { socket = w }))

  unfoldable pub queue_event : RealtimeEvent → RealtimeVoiceTransport W → RealtimeVoiceTransport W
  unfolding disconnect_socket
  queue_event event t =
      if leb maximum_queued_events (length t.events)
      then disconnect_socket
          (record t { status = protocol_failed; events = plain_event protocol_error ∷ [] })
      else record t { events = t.events ++ (event ∷ []) }

  unfoldable pub handle_connected : RealtimeVoiceTransport W → RealtimeVoiceTransport W
  unfolding send_text disconnect_socket
  handle_connected t =
      let message = build_realtime_session_create t.session (codes "session-create") in
      let (sent, t1) = send_text message (record t { status = awaiting_session }) in
      if not sent then disconnect_socket (record t1 { status = disconnected }) else t1

  -- The branches on the type of a parsed event, and the queue behind them.
  unfoldable pub accept_event :
      RealtimeEvent → RealtimeEventType → RealtimeVoiceTransport W → RealtimeVoiceTransport W
  unfolding send_text disconnect_socket queue_event
  accept_event event session_created t =
      let (sent, t1) = send_text (build_realtime_mute_commit (codes "initial-mute")) t in
      if not sent
      then disconnect_socket (record t1 { status = disconnected })
      else queue_event event (record t1 { status = ready })
  accept_event event error t =
      queue_event event
        (record t { provider_error_code = event.error_code; status = provider_failed })
  accept_event event protocol_error t = queue_event event (record t { status = protocol_failed })
  accept_event event _ t = queue_event event t

  unfoldable pub handle_text : Bytes → RealtimeVoiceTransport W → RealtimeVoiceTransport W
  unfolding accept_event
  handle_text payload t =
      let event = parse_realtime_server_event payload in
      let last = remember_realtime_event_type t.last_event_type event.kind in
      if is_empty payload
      then t
      else accept_event event event.kind (record t { last_event_type = last })

  unfoldable pub handle_socket_event :
      SocketEvent → RealtimeVoiceTransport W → RealtimeVoiceTransport W
  unfolding handle_connected handle_disconnected handle_text
  handle_socket_event connected t = handle_connected t
  handle_socket_event socket_error t =
      if not t.closing
      then record t { disconnect_code = codes "websocket_error"; status = disconnected }
      else t
  handle_socket_event (disconnected_event payload) t =
      handle_disconnected (bytes_or_empty payload) t
  handle_socket_event (text_event none) t = t
  handle_socket_event (text_event (some payload)) t = handle_text payload t
  handle_socket_event other_event t = t

  unfoldable pub close : RealtimeVoiceTransport W → RealtimeVoiceTransport W
  unfolding send_text disconnect_socket
  close t =
      let message = build_realtime_session_close (codes "local-session-close") in
      let t1 = if has_status t.status ready then (send_text message t).1 else t in
      record (disconnect_socket (record t1 { closing = true })) { events = []; status = idle }

  unfoldable pub begin_session :
      RealtimeVoiceConfig
      → RealtimeSessionConfig
      → RealtimeVoiceTransport W
      → Bool × RealtimeVoiceTransport W
  unfolding close
  begin_session provider session t =
      elim (parse_secure_endpoint realtime_voice_endpoint (codes "wss://") 443) [
        | none ↦ (false, record t { status = protocol_failed })
        | some endpoint ↦
            if is_empty provider.api_key || is_empty session.session_id || is_empty session.voice
            then (false, record t { status = protocol_failed })
            else let t1 = close t in
              let request = build_realtime_transport_request provider.api_key in
              let extra = format_web_socket_extra_headers request.headers in
              let w = lib.clear_disconnect_hint t1.socket in
              (
                true,
                record {
                  socket = lib.open_socket extra endpoint w;
                  session = session;
                  status = connecting;
                  extra_headers = extra;
                  provider_error_code = [];
                  disconnect_code = codes "none";
                  events = [];
                  last_event_type = unknown;
                  closing = false;
                },
              )
      ]

  unfoldable pub begin_input : Bytes → RealtimeVoiceTransport W → Bool × RealtimeVoiceTransport W
  unfolding send_text
  begin_input event_id t =
      if not (has_status t.status ready)
      then (false, t)
      else send_text (build_realtime_unmute_commit event_id) t

  -- A null pointer is `none`.
  unfoldable pub send_pcm16 :
      Option Bytes → RealtimeVoiceTransport W → Bool × RealtimeVoiceTransport W
  unfolding send_text
  send_pcm16 none t = (false, t)
  send_pcm16 (some pcm) t =
      if not (has_status t.status ready) || not (length pcm == pcm_frame_bytes)
      then (false, t)
      else send_text (build_realtime_audio_append pcm) t

  unfoldable pub mute_input : Bytes → RealtimeVoiceTransport W → Bool × RealtimeVoiceTransport W
  unfolding send_text
  mute_input event_id t =
      if not (has_status t.status ready)
      then (false, t)
      else send_text (build_realtime_mute_commit event_id) t

  unfoldable pub commit_input :
      Bytes → Bytes → RealtimeVoiceTransport W → Bool × RealtimeVoiceTransport W
  unfolding send_text
  commit_input commit_event_id mute_event_id t =
      let (sent, t1) = send_text (build_realtime_input_commit commit_event_id) t in
      if not (has_status t.status ready)
      then (false, t)
      else if not sent
      then (false, t1)
      else send_text (build_realtime_mute_commit mute_event_id) t1

  unfoldable pub pop_event :
      RealtimeVoiceTransport W → Option RealtimeEvent × RealtimeVoiceTransport W
  pop_event t = elim t.events [
    | [] ↦ (none, t)
    | event ∷ events ↦ (some event, record t { events = events })
  ]
