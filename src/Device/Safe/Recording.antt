-- ===== src/Device/Safe/Recording.antt =====
-- esp32_voice_kit.ino, `beginRecording`, `finishRecording` and `serviceRecording`: what is in use.
use qh_voice_kit.Base.{
  ◌≡◌, ◌∙◌, Bool, true, false, not, ◌||◌, some, arith, if_both, unless_both, option_both, length,
  leb, ltb, ◌==◌, ◌++◌, ◌-◌, ◌*◌, ◌%◌,
}
use qh_voice_kit.Base.Bytes.{codes}
use qh_voice_kit.Base.Words.{sub32}
use qh_voice_kit.Device.{
  Platform, Device, minimum_recording_ms, maximum_recording_ms, capture_samples_per_frame,
}
use qh_voice_kit.Device.Recording.{
  begin_accepted, begin_recording, new_turn, begin_streaming, samples, cancel_recording,
  commit_recording, finish_recording, send_frame, pace_frame, capture, service_recording,
}
use qh_voice_kit.Device.Runtime.{
  apply_turn, in_state, make_request_id, format_utc_now, millis, start_microphone, stop_audio_bus,
}
use qh_voice_kit.Device.Safe.{
  state-eq, is_offline, IsSafe, stop_audio_bus-off, fail_runtime-IsSafe, on_air, with_turn,
  recording-Exclusive,
}
use qh_voice_kit.Pacer.{due}
use qh_voice_kit.Pcm.{convert_i2s32_to_pcm16le}
use qh_voice_kit.Transport.{
  has_status, ready, begin_input, commit_input, send_pcm16, pcm_frame_bytes,
}
use qh_voice_kit.Turn.{
  VoiceTurnState, button_pressed, button_released, recording_cancelled, recording_and_streaming,
  apply,
}

pressed-recording :
    {E W : Type 0} (d : Device E W)
    → (apply_turn button_pressed d).0 ≡ true
    → (apply_turn button_pressed d).1.voice_turn ≡ recording_and_streaming
unfolding apply_turn apply
pressed-recording d h = ground arith

unaccepted-same :
    (s : VoiceTurnState) → (apply s button_pressed).1 ≡ false → (apply s button_pressed).0 ≡ s
unfolding apply
unaccepted-same s h = ground arith

unaccepted-IsSafe :
    {E W : Type 0} (d : Device E W)
    → (apply_turn button_pressed d).0 ≡ false
    → IsSafe d
    → IsSafe (apply_turn button_pressed d).1
unfolding apply_turn
unaccepted-IsSafe d e h = record { safe = with_turn (unaccepted-same d.voice_turn e) h.safe }

cancelled-online :
    (s : VoiceTurnState)
    → s ≡ recording_and_streaming
    → is_offline (apply s recording_cancelled).0 ≡ false
unfolding apply
cancelled-online s h = ground arith

released-online :
    (s : VoiceTurnState)
    → s ≡ recording_and_streaming
    → is_offline (apply s button_released).0 ≡ false
unfolding apply
released-online s h = ground arith

streams : (a b : Bool) → (not a || not b) ≡ false → (a ≡ true) × (b ≡ true)
streams a b e = ground arith

module _ {E W : Type 0} (platform : Platform E W) where
  begin_streaming-IsSafe :
      (d : Device E W)
      → d.speaker_running ≡ false
      → d.voice_turn ≡ recording_and_streaming
      → IsSafe (begin_streaming platform d)
  unfolding begin_streaming make_request_id millis
  begin_streaming-IsSafe d off h =
      let (id, d1) = make_request_id platform d in
      let (sent, t) = begin_input platform.socket id d1.realtime_transport in
      let d2 = record d1 { realtime_transport = t } in
      unless_both IsSafe sent (λ _. fail_runtime-IsSafe platform (codes "provider_send_failed") d2)
        (λ _. record { safe = recording-Exclusive off h })

  begin_accepted-IsSafe :
      (d : Device E W) → d.voice_turn ≡ recording_and_streaming → IsSafe (begin_accepted platform d)
  unfolding begin_accepted new_turn start_microphone make_request_id format_utc_now
  begin_accepted-IsSafe d h =
      let (running, d1) = start_microphone platform (new_turn platform d) in
      let off = stop_audio_bus-off platform (new_turn platform d) in
      unless_both IsSafe running
        (λ _. fail_runtime-IsSafe platform (codes "microphone_start_failed") d1)
        (λ _. begin_streaming-IsSafe d1 off.1 (off.2 ∙ h))

  pub begin_recording-IsSafe : (d : Device E W) → IsSafe d → IsSafe (begin_recording platform d)
  unfolding begin_recording
  begin_recording-IsSafe d h =
      let pressed = apply_turn button_pressed d in
      option_both IsSafe d.active_config (λ _. h)
        (λ _ _.
          unless_both IsSafe (has_status d.realtime_transport.status ready) (λ _. h)
            (λ _.
              unless_both IsSafe pressed.0 (λ e. unaccepted-IsSafe d e h)
                (λ e. begin_accepted-IsSafe pressed.1 (pressed-recording d e))))

  cancel_recording-IsSafe :
      (d : Device E W)
      → d.microphone_running ≡ false
      → d.voice_turn ≡ recording_and_streaming
      → IsSafe (cancel_recording platform d)
  unfolding cancel_recording make_request_id apply_turn
  cancel_recording-IsSafe d off h = record { safe = on_air (cancelled-online d.voice_turn h) off }

  commit_recording-IsSafe :
      (d : Device E W)
      → d.microphone_running ≡ false
      → d.voice_turn ≡ recording_and_streaming
      → IsSafe (commit_recording platform d)
  unfolding commit_recording make_request_id apply_turn millis
  commit_recording-IsSafe d off h =
      let (id, d1) = make_request_id platform d in
      let (mute_id, d2) = make_request_id platform d1 in
      let (sent, t) = commit_input platform.socket id mute_id d2.realtime_transport in
      let d3 = record d2 { realtime_transport = t } in
      let (released, d4) = apply_turn button_released d3 in
      unless_both IsSafe sent
        (λ _. fail_runtime-IsSafe platform (codes "provider_commit_failed") d3)
        (λ _.
          unless_both IsSafe released
            (λ _. fail_runtime-IsSafe platform (codes "provider_commit_failed") d4)
            (λ _. record { safe = on_air (released-online d.voice_turn h) off }))

  pub finish_recording-IsSafe : (d : Device E W) → IsSafe d → IsSafe (finish_recording platform d)
  unfolding finish_recording
  finish_recording-IsSafe d h =
      let off = stop_audio_bus-off platform d in
      let (now, d1) = millis platform (stop_audio_bus platform d) in
      unless_both IsSafe (in_state recording_and_streaming d) (λ _. h)
        (λ e.
          let r : d.voice_turn ≡ recording_and_streaming = state-eq _ _ e in
          if_both IsSafe
            (ltb (sub32 now d1.recording_started_ms) minimum_recording_ms
              || d1.streamed_frames == 0)
            (λ _. cancel_recording-IsSafe d1 off.0 (off.2 ∙ r))
            (λ _. commit_recording-IsSafe d1 off.0 (off.2 ∙ r)))

  -- While recording, what only sends a message.
  send_frame-IsSafe :
      (d : Device E W)
      → d.voice_turn ≡ recording_and_streaming
      → d.speaker_running ≡ false
      → IsSafe (send_frame platform d)
  unfolding send_frame
  send_frame-IsSafe d h off =
      let (pcm_bytes, pcm) = convert_i2s32_to_pcm16le false d.captured pcm_frame_bytes in
      let (sent, t) = send_pcm16 platform.socket (some pcm) d.realtime_transport in
      let d1 = record d { realtime_transport = t } in
      unless_both IsSafe (pcm_bytes == pcm_frame_bytes)
        (λ _. fail_runtime-IsSafe platform (codes "provider_send_failed") d)
        (λ _.
          unless_both IsSafe sent
            (λ _. fail_runtime-IsSafe platform (codes "provider_send_failed") d1)
            (λ _. record { safe = recording-Exclusive off h }))

  pace_frame-IsSafe :
      (d : Device E W)
      → d.voice_turn ≡ recording_and_streaming
      → d.speaker_running ≡ false
      → IsSafe (pace_frame platform d)
  unfolding pace_frame millis
  pace_frame-IsSafe d h off =
      let (now, d1) = millis platform d in
      let (is_due, pacer) = due now d1.frame_pacer in
      unless_both IsSafe (length d.captured == capture_samples_per_frame)
        (λ _. record { safe = recording-Exclusive off h })
        (λ _.
          unless_both IsSafe is_due (λ _. record { safe = recording-Exclusive off h })
            (λ _. send_frame-IsSafe (record d1 { frame_pacer = pacer }) h off))

  capture-IsSafe :
      (d : Device E W)
      → d.voice_turn ≡ recording_and_streaming
      → d.speaker_running ≡ false
      → IsSafe (capture platform d)
  unfolding capture
  capture-IsSafe d h off =
      let remaining = capture_samples_per_frame - length d.captured in
      let (bytes, e) = platform.read_bytes (remaining * 4) d.world in
      let d1 = record d { world = e } in
      unless_both IsSafe (ltb (length d.captured) capture_samples_per_frame)
        (λ _. pace_frame-IsSafe d h off)
        (λ _.
          if_both IsSafe (length bytes == 0 || not (length bytes % 4 == 0))
            (λ _. fail_runtime-IsSafe platform (codes "microphone_read_failed") d1)
            (λ _. pace_frame-IsSafe (record d1 { captured = d1.captured ++ samples bytes }) h off))

  pub service_recording-IsSafe : (d : Device E W) → IsSafe d → IsSafe (service_recording platform d)
  unfolding service_recording millis
  service_recording-IsSafe d h =
      let (now, d1) = millis platform d in
      if_both IsSafe (not (in_state recording_and_streaming d) || not d.microphone_running) (λ _. h)
        (λ e.
          let used = h.safe.half_duplex (streams _ _ e).1 in
          if_both IsSafe (leb maximum_recording_ms (sub32 now d1.recording_started_ms))
            (λ _. finish_recording-IsSafe d1 (record { safe = h.safe }))
            (λ _. capture-IsSafe d1 used.1 used.0))
