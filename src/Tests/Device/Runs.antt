-- ===== src/Tests/Device/Runs.antt =====
-- esp32_voice_kit.ino: a whole conversation, and an event that comes late.
use qh_voice_kit.Base.{ℕ, zero, suc, ◌≡◌, refl, true, false, some, List, [], ◌∷◌, length}
use qh_voice_kit.Base.Bytes.{Bytes, codes}
use qh_voice_kit.Device.{Device, new_device}
use qh_voice_kit.Device.Events.{events_loop, service_realtime_events}
use qh_voice_kit.Device.Loop.{setup, loops}
use qh_voice_kit.Device.Network.{service_network_runtime}
use qh_voice_kit.Device.Recording.{finish_recording, service_recording}
use qh_voice_kit.Device.Runtime.{fail_runtime}
use qh_voice_kit.Realtime.{plain_event}
use qh_voice_kit.Base.Search.{find_first, find_last, find_text, begins_with}
use qh_voice_kit.Base.Bytes.{bytes_eq}
use qh_voice_kit.Button.{begin, update, new_debouncer}
use qh_voice_kit.Device.Loop.{loop, start_device, services}
use qh_voice_kit.Device.Network.{
  start_configured_runtime, service_wifi, service_clock, service_connected, retry, end_success,
}
use qh_voice_kit.Device.Provider.{
  start_provider_connection, poll_transport, deliver, service_answer, service_status,
  service_provider, service_button, session_of,
}
use qh_voice_kit.Device.Runtime.{
  make_request_id, hex_onto, format_utc_now, millis, apply_turn, stop_audio_bus, connect_wifi,
  start_microphone,
}
use qh_voice_kit.Device.Events.{handle_event}
use qh_voice_kit.Device.Recording.{
  begin_recording, begin_accepted, begin_streaming, new_turn, cancel_recording, commit_recording,
  send_frame, pace_frame, capture, samples,
}
use qh_voice_kit.Endpoint.{parse_secure_endpoint, split_authority, finish_endpoint, parse_port}
use qh_voice_kit.Json.{
  find_json_string, find_value, skip_space, parse_json_string, parse_loop, parse_round,
}
use qh_voice_kit.Realtime.{parse_realtime_server_event, read_event, realtime_event_type}
use qh_voice_kit.Receiver.{emit_status, read_provisioning_serial}
use qh_voice_kit.Transport.{
  begin_session, close, send_text, disconnect_socket, called_back, handle_disconnected,
  handle_socket_event, handle_connected, handle_text, accept_event, queue_event, pop_event,
}
use qh_voice_kit.Turn.{apply}
use qh_voice_kit.Pacer.{due, reset}
use qh_voice_kit.Pcm.{convert_i2s32_to_pcm16le}
use qh_voice_kit.Transport.{begin_input, send_pcm16, commit_input}
use qh_voice_kit.Device.Turns.{complete_turn, sync_completed_turn, completed_turn}
use qh_voice_kit.Sync.{post_qh_conversation_turn}
use qh_voice_kit.Device.Turns.{write_output_audio, play, open_speaker, start_playing}
use qh_voice_kit.Device.Runtime.{start_speaker}
use qh_voice_kit.Base64.{decode_base64, decode_from, decode_block, base64_value}
use qh_voice_kit.Base.{◌++◌}
use qh_voice_kit.Realtime.{output_audio_delta}
use qh_voice_kit.Tests.Config.{home}
use qh_voice_kit.Transport.{RealtimeTransportStatus}
use qh_voice_kit.Turn.{recording_and_streaming, waiting_response, idle, error}
use qh_voice_kit.Tests.Device.{World, Script, desk, transport, started, zeros, next_events, quiet}

-- Rounds without a byte on the serial line.
silence : ℕ → List Bytes
silence zero = []
silence (suc n) = [] ∷ silence n

-- After set-up and three rounds the device is idle, and its transport ready.
becomes_idle :
    let d = (started (silence 3)).device in
    (d.voice_turn ≡ idle) × (d.realtime_transport.status ≡ RealtimeTransportStatus.ready)
unfolding silence quiet zeros next_events loops loop setup start_device services
    start_configured_runtime service_network_runtime service_wifi service_clock service_connected
    retry end_success start_provider_connection poll_transport deliver service_answer service_status
    service_provider service_button make_request_id hex_onto format_utc_now millis apply_turn
    stop_audio_bus connect_wifi fail_runtime start_microphone service_realtime_events events_loop
    handle_event session_of begin_session close send_text disconnect_socket called_back
    handle_disconnected handle_socket_event handle_connected handle_text accept_event queue_event
    pop_event apply service_recording update begin parse_secure_endpoint find_first find_last
    bytes_eq split_authority finish_endpoint parse_port read_provisioning_serial emit_status
    parse_realtime_server_event read_event realtime_event_type find_json_string find_value find_text
    begins_with skip_space parse_json_string parse_loop parse_round new_debouncer
becomes_idle = (refl, refl)

-- The button is held for 600 ms: the device records, sends a frame in each round, and then waits.
records :
    let d = (started (silence 12)).device in
    let e = (started (silence 39)).device in
    (d.voice_turn ≡ recording_and_streaming)
    × (d.microphone_running ≡ true)
    × (d.streamed_frames ≡ 3)
    × (e.voice_turn ≡ waiting_response)
    × (e.microphone_running ≡ false)
unfolding silence quiet zeros next_events loops loop setup start_device services
    start_configured_runtime service_network_runtime service_wifi service_clock service_connected
    retry end_success start_provider_connection poll_transport deliver service_answer service_status
    service_provider service_button make_request_id hex_onto format_utc_now millis apply_turn
    stop_audio_bus connect_wifi fail_runtime start_microphone service_realtime_events events_loop
    handle_event session_of begin_session close send_text disconnect_socket called_back
    handle_disconnected handle_socket_event handle_connected handle_text accept_event queue_event
    pop_event apply service_recording update begin parse_secure_endpoint find_first find_last
    bytes_eq split_authority finish_endpoint parse_port read_provisioning_serial emit_status
    parse_realtime_server_event read_event realtime_event_type find_json_string find_value find_text
    begins_with skip_space parse_json_string parse_loop parse_round new_debouncer begin_recording
    begin_accepted begin_streaming new_turn finish_recording cancel_recording commit_recording
    send_frame pace_frame capture samples due reset begin_input send_pcm16 commit_input
    convert_i2s32_to_pcm16le
records = (refl, refl, refl, refl, refl)

-- The answer arrives: the device is idle again, with both texts, and has posted the turn once.
answers :
    let d = (started (silence 41)).device in
    (d.voice_turn ≡ idle)
    × (d.current_transcript ≡ codes "hi")
    × (d.current_reply ≡ codes "yes")
    × (length d.world.posted ≡ 1)
unfolding silence quiet zeros next_events loops loop setup start_device services
    start_configured_runtime service_network_runtime service_wifi service_clock service_connected
    retry end_success start_provider_connection poll_transport deliver service_answer service_status
    service_provider service_button make_request_id hex_onto format_utc_now millis apply_turn
    stop_audio_bus connect_wifi fail_runtime start_microphone service_realtime_events events_loop
    handle_event session_of begin_session close send_text disconnect_socket called_back
    handle_disconnected handle_socket_event handle_connected handle_text accept_event queue_event
    pop_event apply service_recording update begin parse_secure_endpoint find_first find_last
    bytes_eq split_authority finish_endpoint parse_port read_provisioning_serial emit_status
    parse_realtime_server_event read_event realtime_event_type find_json_string find_value find_text
    begins_with skip_space parse_json_string parse_loop parse_round new_debouncer begin_recording
    begin_accepted begin_streaming new_turn finish_recording cancel_recording commit_recording
    send_frame pace_frame capture samples due reset begin_input send_pcm16 commit_input
    convert_i2s32_to_pcm16le complete_turn sync_completed_turn completed_turn
    post_qh_conversation_turn
answers = (refl, refl, refl, refl)

-- An idle device that has completed a turn, and an output audio event that comes late: the speaker
-- starts again, and the next round fails.
abbrev late : Device World Script
late = record (new_device (record { clock = 900; posted = [] }) transport) {
  voice_turn = idle;
  active_config = some home;
  response_done_received = true;
  output_audio_done_received = true;
  realtime_transport = record transport {
    status = RealtimeTransportStatus.ready;
    events =
        record (plain_event output_audio_delta) { audio_base64 = codes "AAAA" ++ codes "AAA=" }
        ∷ [];
  };
}

late_audio :
    (service_provider desk (record late {
      realtime_transport = record late.realtime_transport { socket = [] };
    })).voice_turn
    ≡ error
unfolding service_provider service_realtime_events events_loop handle_event write_output_audio play
    open_speaker start_speaker start_playing stop_audio_bus apply_turn apply millis poll_transport
    deliver service_status service_answer complete_turn fail_runtime next_events pop_event close
    send_text called_back disconnect_socket decode_base64 decode_from decode_block base64_value
late_audio = refl
