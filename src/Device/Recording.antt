-- ===== src/Device/Recording.antt =====
-- esp32_voice_kit.ino, `beginRecording`, `finishRecording` and `serviceRecording`.
use qh_voice_kit.Base.{
  ℕ, ◌+◌, ◌*◌, ◌-◌, ◌%◌, ◌^◌, false, not, ◌||◌, none, some, List, [], ◌∷◌, ◌++◌, ltb, leb, ◌==◌,
  if◌then◌else◌, length,
}
use qh_voice_kit.Base.Bytes.{Bytes, codes}
use qh_voice_kit.Base.Words.{sub32, u32}
use qh_voice_kit.Device.{
  Platform, Device, minimum_recording_ms, maximum_recording_ms, capture_samples_per_frame,
}
use qh_voice_kit.Device.Runtime.{
  make_request_id, format_utc_now, millis, show, apply_turn, in_state, stop_audio_bus, fail_runtime,
  start_microphone,
}
use qh_voice_kit.Display.{UiState}
use qh_voice_kit.Pacer.{due, reset}
use qh_voice_kit.Pcm.{convert_i2s32_to_pcm16le}
use qh_voice_kit.Transport.{
  has_status, ready, pcm_frame_bytes, begin_input, mute_input, commit_input, send_pcm16,
}
use qh_voice_kit.Turn.{
  button_pressed, button_released, recording_cancelled, recording_and_streaming,
}

-- Samples of 32 bits, the low byte first.
unfoldable pub samples : Bytes → List ℕ
samples (a ∷ b ∷ c ∷ d ∷ bytes) = (a + b * 2 ^ 8 + c * 2 ^ 16 + d * 2 ^ 24) ∷ samples bytes
samples _ = []

module _ {E W : Type 0} (platform : Platform E W) where
  -- The texts and the counts of a new turn.
  unfoldable pub new_turn : Device E W → Device E W
  unfolding make_request_id format_utc_now
  new_turn d =
      let (id, d1) = make_request_id platform d in
      let (started_at, d2) = format_utc_now platform d1 in
      record d2 {
        current_turn_id = id;
        current_turn_started_at = started_at;
        current_transcript = [];
        current_reply = [];
        response_done_received = false;
        output_audio_done_received = false;
        captured = [];
        streamed_frames = 0;
      }

  -- Behind the start of the microphone.
  unfoldable pub begin_streaming : Device E W → Device E W
  unfolding make_request_id millis
  begin_streaming d =
      let (id, d1) = make_request_id platform d in
      let (sent, t) = begin_input platform.socket id d1.realtime_transport in
      let d2 = record d1 { realtime_transport = t } in
      let (now, d3) = millis platform d2 in
      if not sent
      then fail_runtime platform (codes "provider_send_failed") d2
      else show UiState.recording (record d3 {
        recording_started_ms = now;
        frame_pacer = reset now d3.frame_pacer;
        success_display_active = false;
      })

  -- Behind the button's event, which has been accepted.
  unfoldable pub begin_accepted : Device E W → Device E W
  unfolding new_turn start_microphone begin_streaming
  begin_accepted d =
      let (running, d1) = start_microphone platform (new_turn d) in
      if not running
      then fail_runtime platform (codes "microphone_start_failed") d1
      else begin_streaming d1

  unfoldable pub begin_recording : Device E W → Device E W
  unfolding apply_turn begin_accepted
  begin_recording d = elim d.active_config [
    | none ↦ d
    | some _ ↦
        let (accepted, d1) = apply_turn button_pressed d in
        if not (has_status d.realtime_transport.status ready)
        then d
        else if not accepted
        then d1
        else begin_accepted d1
  ]

  -- A recording that is too short: the input is muted again.
  unfoldable pub cancel_recording : Device E W → Device E W
  unfolding make_request_id apply_turn
  cancel_recording d =
      let (id, d1) = make_request_id platform d in
      let (_, t) = mute_input platform.socket id d1.realtime_transport in
      show UiState.idle (apply_turn recording_cancelled (record d1 { realtime_transport = t })).1

  unfoldable pub commit_recording : Device E W → Device E W
  unfolding make_request_id apply_turn millis
  commit_recording d =
      let (id, d1) = make_request_id platform d in
      let (mute_id, d2) = make_request_id platform d1 in
      let (sent, t) = commit_input platform.socket id mute_id d2.realtime_transport in
      let d3 = record d2 { realtime_transport = t } in
      let (released, d4) = apply_turn button_released d3 in
      let (now, d5) = millis platform d4 in
      if not sent
      then fail_runtime platform (codes "provider_commit_failed") d3
      else if not released
      then fail_runtime platform (codes "provider_commit_failed") d4
      else show UiState.thinking (record d5 { response_started_ms = now })

  unfoldable pub finish_recording : Device E W → Device E W
  unfolding stop_audio_bus millis cancel_recording commit_recording
  finish_recording d =
      let (now, d1) = millis platform (stop_audio_bus platform d) in
      if not (in_state recording_and_streaming d)
      then d
      else if ltb (sub32 now d1.recording_started_ms) minimum_recording_ms
          || d1.streamed_frames == 0
      then cancel_recording d1
      else commit_recording d1

  -- A captured frame that is due is sent.
  unfoldable pub send_frame : Device E W → Device E W
  send_frame d =
      let (pcm_bytes, pcm) = convert_i2s32_to_pcm16le false d.captured pcm_frame_bytes in
      let (sent, t) = send_pcm16 platform.socket (some pcm) d.realtime_transport in
      let d1 = record d { realtime_transport = t } in
      if not (pcm_bytes == pcm_frame_bytes)
      then fail_runtime platform (codes "provider_send_failed") d
      else if not sent
      then fail_runtime platform (codes "provider_send_failed") d1
      else record d1 { captured = []; streamed_frames = u32 (d1.streamed_frames + 1) }

  unfoldable pub pace_frame : Device E W → Device E W
  unfolding millis send_frame
  pace_frame d =
      let (now, d1) = millis platform d in
      let (is_due, pacer) = due now d1.frame_pacer in
      let d2 = record d1 { frame_pacer = pacer } in
      if not (length d.captured == capture_samples_per_frame)
      then d
      else if not is_due
      then d2
      else send_frame d2

  -- The capture of what is left of a frame.
  unfoldable pub capture : Device E W → Device E W
  unfolding samples pace_frame
  capture d =
      let remaining = capture_samples_per_frame - length d.captured in
      let (bytes, e) = platform.read_bytes (remaining * 4) d.world in
      let d1 = record d { world = e } in
      if not (ltb (length d.captured) capture_samples_per_frame)
      then pace_frame d
      else if length bytes == 0 || not (length bytes % 4 == 0)
      then fail_runtime platform (codes "microphone_read_failed") d1
      else pace_frame (record d1 { captured = d1.captured ++ samples bytes })

  unfoldable pub service_recording : Device E W → Device E W
  unfolding millis finish_recording capture
  service_recording d =
      let (now, d1) = millis platform d in
      if not (in_state recording_and_streaming d) || not d.microphone_running
      then d
      else if leb maximum_recording_ms (sub32 now d1.recording_started_ms)
      then finish_recording d1
      else capture d1
