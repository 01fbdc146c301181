-- ===== src/Device/Provider.antt =====
-- esp32_voice_kit.ino, `startProviderConnection`, `serviceProvider` and `serviceButton`.
use qh_voice_kit.Base.{not, ◌&&◌, ◌||◌, none, some, List, [], ◌∷◌, leb, if◌then◌else◌}
use qh_voice_kit.Base.Bytes.{Bytes, codes}
use qh_voice_kit.Base.Words.{sub32}
use qh_voice_kit.Config.{DeviceConfig}
use qh_voice_kit.Button
use qh_voice_kit.Device.{
  Platform, Device, provider_connect_timeout_ms, provider_response_timeout_ms,
}
use qh_voice_kit.Device.Events.{provider_error_code, service_realtime_events}
use qh_voice_kit.Device.Recording.{begin_recording, finish_recording}
use qh_voice_kit.Device.Runtime.{make_request_id, millis, show, apply_turn, in_state, fail_runtime}
use qh_voice_kit.Device.Turns.{complete_turn}
use qh_voice_kit.Display.{UiState}
use qh_voice_kit.Realtime.{safe_realtime_error_code}
use qh_voice_kit.Realtime.Messages.{RealtimeSessionConfig}
use qh_voice_kit.Transport.{
  RealtimeVoiceTransport, RealtimeTransportStatus, SocketEvent, ready, provider_failed,
  protocol_failed, disconnected, has_status, handle_socket_event, begin_session,
}
use qh_voice_kit.Turn.{
  VoiceTurnState, provider_connected, connecting_provider, recording_and_streaming,
  waiting_response, playing,
}

-- The session that `startProviderConnection` asks for.
unfoldable pub session_of : DeviceConfig → Bytes → RealtimeSessionConfig
session_of c id = record {
  session_id = id;
  instructions = c.assistant.system_prompt;
  voice = c.realtime_voice.voice;
}

module _ {E W : Type 0} (platform : Platform E W) where
  unfoldable pub start_provider_connection : Device E W → Device E W
  unfolding make_request_id millis session_of
  start_provider_connection d = elim d.active_config [
    | none ↦ d
    | some c ↦
        let (id, d1) = make_request_id platform d in
        let (begun, t) =
          begin_session platform.socket c.realtime_voice (session_of c id) d1.realtime_transport in
        let d2 = record d1 { realtime_transport = t } in
        let (now, d3) = millis platform d2 in
        if not (in_state connecting_provider d)
        then d
        else if not begun
        then fail_runtime platform (codes "provider_config_invalid") d2
        else show UiState.connecting (record d3 { provider_connect_started_ms = now })
  ]

  -- The events that one `loop` of the socket reports, in order.
  unfoldable pub deliver : List SocketEvent → RealtimeVoiceTransport W → RealtimeVoiceTransport W
  deliver [] t = t
  deliver (event ∷ events) t = deliver events (handle_socket_event platform.socket event t)

  -- `realtime_transport.loop()`, unless the transport is idle.
  unfoldable pub poll_transport : Device E W → Device E W
  unfolding deliver
  poll_transport d =
      let (reported, w) = platform.poll d.realtime_transport.socket in
      if not (has_status d.realtime_transport.status RealtimeTransportStatus.idle)
      then record d {
        realtime_transport = deliver reported (record d.realtime_transport { socket = w });
      }
      else d

  -- `serviceProvider` from the test of the playback on.
  unfoldable pub service_answer : Device E W → Device E W
  unfolding millis
  service_answer d =
      let (failed, failed_world) = platform.playback_failed d.world in
      let d1 = if in_state playing d then record d { world = failed_world } else d in
      let awaits = in_state waiting_response d1 || in_state playing d1 in
      let (now, timed) = millis platform d1 in
      let d2 = if awaits then timed else d1 in
      let (drained, drained_world) = platform.playback_drained d2.world in
      if in_state playing d && failed
      then fail_runtime platform (codes "playback_failed") d1
      else if awaits && leb provider_response_timeout_ms (sub32 now d1.response_started_ms)
      then fail_runtime platform (codes "provider_response_timeout") d2
      else if not (d2.speaker_running && d2.response_done_received && d2.output_audio_done_received)
      then d2
      else (let d3 = record d2 { world = drained_world } in
          if drained then complete_turn platform d3 else d3)

  -- From the test of the transport's status on.
  unfoldable pub service_status : RealtimeTransportStatus → Device E W → Device E W
  unfolding service_answer
  service_status provider_failed d =
      let code = safe_realtime_error_code d.realtime_transport.provider_error_code in
      fail_runtime platform (provider_error_code code) d
  service_status protocol_failed d = fail_runtime platform (codes "provider_protocol_failed") d
  service_status disconnected d =
      if not (in_state VoiceTurnState.error d)
      then fail_runtime platform (codes "provider_disconnected") d
      else service_answer d
  service_status _ d = service_answer d

  unfoldable pub service_provider : Device E W → Device E W
  unfolding poll_transport millis apply_turn service_status
  service_provider d =
      let d1 = service_realtime_events platform (poll_transport d) in
      let (now, d2) = millis platform d1 in
      if not (in_state connecting_provider d1)
      then service_status d1.realtime_transport.status d1
      else if has_status d1.realtime_transport.status ready
      then show UiState.idle (apply_turn provider_connected d1).1
      else if leb provider_connect_timeout_ms (sub32 now d2.provider_connect_started_ms)
      then fail_runtime platform (codes "provider_connect_timeout") d2
      else service_status d2.realtime_transport.status d2

  unfoldable pub service_button : Device E W → Device E W
  unfolding millis
  service_button d =
      let (raw_level, e) = platform.button_is_high d.world in
      let (now, d1) = millis platform (record d { world = e }) in
      let (changed, b) = Button.update raw_level now d1.button in
      let d2 = record d1 { button = b } in
      if not changed
      then d2
      else if b.changed_to_pressed && in_state VoiceTurnState.idle d2
      then begin_recording platform d2
      else if b.changed_to_released && in_state recording_and_streaming d2
      then finish_recording platform d2
      else d2
