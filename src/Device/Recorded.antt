-- ===== src/Device/Recorded.antt =====
-- esp32_voice_kit.ino, `finishRecording` and `serviceRecording`: which recordings are sent, and how
-- much is captured.
use qh_voice_kit.Base.{
  ℕ, ◌≤◌, ◌<◌, ◌≡◌, ◌⊎◌, refl, ap, ap₂, ◌∙◌, sym, Bool, true, false, ◌||◌, ltb, ◌==◌, arith,
  if_both, unless_both,
}
use qh_voice_kit.Base.Bytes.{Bytes, codes}
use qh_voice_kit.Base.Words.{sub32}
use qh_voice_kit.Device.{Platform, Device, minimum_recording_ms}
use qh_voice_kit.Device.Recording.{cancel_recording, commit_recording, finish_recording}
use qh_voice_kit.Device.Runtime.{
  apply_turn, fail_runtime, in_state, make_request_id, millis, stop_audio_bus,
}
use qh_voice_kit.Device.Safe.{stop_audio_bus-off}
use qh_voice_kit.Transport.{RealtimeVoiceTransport, mute_input, commit_input}
use qh_voice_kit.Turn.{
  VoiceTurnState, VoiceTurnEvent, apply, button_released, recording_cancelled,
  recording_and_streaming, waiting_response, is_state,
}

cancelled-idle :
    (s : VoiceTurnState)
    → s ≡ recording_and_streaming
    → (apply s recording_cancelled).0 ≡ VoiceTurnState.idle
unfolding apply
cancelled-idle s h = ground arith

released-waiting :
    (s : VoiceTurnState)
    → s ≡ recording_and_streaming
    → ((apply s button_released).0 ≡ waiting_response) × ((apply s button_released).1 ≡ true)
unfolding apply
released-waiting s h = ground arith

failed-error :
    (s : VoiceTurnState)
    → s ≡ recording_and_streaming
    → (apply s VoiceTurnEvent.failure).0 ≡ VoiceTurnState.error
unfolding apply
failed-error s h = ground arith

too_short : (a frames : ℕ) → (ltb a 300 || frames == 0) ≡ true → (a < 300) ⊎ (frames ≡ 0)
too_short a frames e = ground arith

long_enough : (a frames : ℕ) → (ltb a 300 || frames == 0) ≡ false → (300 ≤ a) × (0 < frames)
long_enough a frames e = ground arith

module _ {E W : Type 0} (platform : Platform E W) where
  -- The device whose bus has been stopped, the time then, and how long it has recorded.
  abbrev pub stopped : Device E W → Device E W
  stopped d = (millis platform (stop_audio_bus platform d)).1

  abbrev pub recorded_ms : Device E W → ℕ
  recorded_ms d = sub32 (millis platform (stop_audio_bus platform d)).0 d.recording_started_ms

  -- What `commitInput` returns, called with two new identifiers.
  abbrev pub committed : Device E W → Bool × RealtimeVoiceTransport W
  committed d =
      let (id, d1) = make_request_id platform (stopped d) in
      let (mute_id, d2) = make_request_id platform d1 in
      commit_input platform.socket id mute_id d2.realtime_transport

  -- What `muteInput` leaves, called with a new identifier.
  abbrev pub muted : Device E W → RealtimeVoiceTransport W
  muted d =
      let (id, d1) = make_request_id platform (stopped d) in
      (mute_input platform.socket id d1.realtime_transport).1

  -- How a recording ends: muted and forgotten, sent, or failed.
  pub data Ended (d e : Device E W) : Type 0 where
    forgotten :
        (recorded_ms d < 300) ⊎ (d.streamed_frames ≡ 0)
        → e.voice_turn ≡ VoiceTurnState.idle
        → e.realtime_transport ≡ muted d
        → Ended d e
    sent :
        300 ≤ recorded_ms d
        → 0 < d.streamed_frames
        → (committed d).0 ≡ true
        → e.voice_turn ≡ waiting_response
        → e.realtime_transport ≡ (committed d).1
        → Ended d e
    refused :
        300 ≤ recorded_ms d
        → 0 < d.streamed_frames
        → (committed d).0 ≡ false
        → e.voice_turn ≡ VoiceTurnState.error
        → Ended d e

  stop_audio_bus-count :
      (d : Device E W)
      → let d1 = stop_audio_bus platform d in
        (d1.streamed_frames ≡ d.streamed_frames)
        × (d1.recording_started_ms ≡ d.recording_started_ms)
  unfolding stop_audio_bus
  stop_audio_bus-count d = ground arith

  failed-turn :
      (code : Bytes) (d : Device E W)
      → d.voice_turn ≡ recording_and_streaming
      → (fail_runtime platform code d).voice_turn ≡ VoiceTurnState.error
  unfolding fail_runtime apply_turn millis
  failed-turn code d h =
      failed-error (stop_audio_bus platform d).voice_turn ((stop_audio_bus-off platform d).2 ∙ h)

  commit_recording-Ended :
      (d : Device E W)
      → d.voice_turn ≡ recording_and_streaming
      → 300 ≤ recorded_ms d
      → 0 < d.streamed_frames
      → Ended d (commit_recording platform (stopped d))
  unfolding commit_recording apply_turn millis make_request_id
  commit_recording-Ended d h long some_frames =
      let r = (stop_audio_bus-off platform d).2 ∙ h in
      let (id, d1) = make_request_id platform (stopped d) in
      let (mute_id, d2) = make_request_id platform d1 in
      let (accepted, t) = commit_input platform.socket id mute_id d2.realtime_transport in
      let d3 = record d2 { realtime_transport = t } in
      let (released, d4) = apply_turn button_released d3 in
      let turn = released-waiting d3.voice_turn r in
      unless_both (Ended d) accepted
        (λ e. refused long some_frames e (failed-turn (codes "provider_commit_failed") d3 r))
        (λ e.
          unless_both (Ended d) released (λ k. absurd (cc (k, turn.1)))
            (λ _. sent long some_frames e turn.0 refl))

  -- A recording ends in one of three ways. When it took less than 300 ms (modulo 2^32) or no frame was
  -- sent, the transport is as a call of `muteInput` leaves it, so that nothing is committed, and the
  -- device is idle. Otherwise the input is committed, and the device waits for the answer when
  -- `commitInput` succeeds, and is in an error when it does not.
  pub finish_recording-Ended :
      (d : Device E W)
      → d.voice_turn ≡ recording_and_streaming
      → Ended d (finish_recording platform d)
  unfolding finish_recording cancel_recording apply_turn millis make_request_id
  finish_recording-Ended d h =
      let d1 = stopped d in
      let r = (stop_audio_bus-off platform d).2 ∙ h in
      let same = stop_audio_bus-count d in
      let now = (millis platform (stop_audio_bus platform d)).0 in
      let test =
        ap₂ (λ (frames start : ℕ). ltb (sub32 now start) minimum_recording_ms || frames == 0)
          (sym same.0) (sym same.1) in
      unless_both (Ended d) (in_state recording_and_streaming d)
        (λ e. absurd (cc (e, ap (λ (s : VoiceTurnState). is_state s recording_and_streaming) h)))
        (λ _.
          if_both (Ended d)
            (ltb (sub32 (millis platform (stop_audio_bus platform d)).0 d1.recording_started_ms)
                minimum_recording_ms
              || d1.streamed_frames == 0)
            (λ e.
              forgotten (too_short (recorded_ms d) d.streamed_frames (test ∙ e))
                (cancelled-idle d1.voice_turn r) refl)
            (λ e.
              let long = long_enough (recorded_ms d) d.streamed_frames (test ∙ e) in
              commit_recording-Ended d h long.0 long.1))
