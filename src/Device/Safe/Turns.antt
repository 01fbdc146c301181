-- ===== src/Device/Safe/Turns.antt =====
-- esp32_voice_kit.ino, `writeOutputAudio` and `completeTurn`: what is in use.
use qh_voice_kit.Base.{
  ◌≡◌, refl, ap, ◌∙◌, Bool, true, false, not, ◌||◌, arith, if_both, unless_both, option_both,
  length, ◌==◌, ◌%◌, Bool-cases, inl, inr,
}
use qh_voice_kit.Base.Bytes.{Bytes, codes, is_empty}
use qh_voice_kit.Base64.{decode_base64}
use qh_voice_kit.Config.{DeviceConfig}
use qh_voice_kit.Device.{Platform, Device}
use qh_voice_kit.Device.Runtime.{apply_turn, millis, show, start_speaker, stop_audio_bus}
use qh_voice_kit.Device.Safe.{
  is_offline, IsSafe, on_air, recording-Exclusive, stop_audio_bus-off, fail_runtime-IsSafe,
}
use qh_voice_kit.Device.Turns.{
  complete_turn, open_speaker, play, start_playing, sync_completed_turn, write_output_audio,
}
use qh_voice_kit.Display.{UiState}
use qh_voice_kit.Turn.{VoiceTurnState, VoiceTurnEvent, apply, recording_and_streaming}

completed-online :
    (s : VoiceTurnState)
    → (apply s VoiceTurnEvent.response_done).1 ≡ true
    → is_offline (apply s VoiceTurnEvent.response_done).0 ≡ false
unfolding apply
completed-online s h = ground arith

module _ {E W : Type 0} where
  start_playing-online :
      (d : Device E W)
      → is_offline d.voice_turn ≡ false
      → is_offline (start_playing d).voice_turn ≡ false
  unfolding start_playing apply_turn apply
  start_playing-online d h = ground arith

  start_playing-microphone :
      (d : Device E W) → (start_playing d).microphone_running ≡ d.microphone_running
  unfolding start_playing apply_turn
  start_playing-microphone d = ground arith

  start_playing-speaker : (d : Device E W) → (start_playing d).speaker_running ≡ d.speaker_running
  unfolding start_playing apply_turn
  start_playing-speaker d = ground arith

  start_playing-recording :
      (d : Device E W)
      → d.voice_turn ≡ recording_and_streaming
      → (start_playing d).voice_turn ≡ recording_and_streaming
  unfolding start_playing apply_turn apply
  start_playing-recording d h = ground arith

  -- A running speaker leaves no microphone.
  speaking-off :
      (d : Device E W) → IsSafe d → d.speaker_running ≡ true → d.microphone_running ≡ false
  speaking-off d h on = elim (Bool-cases d.microphone_running) [
    | inl e ↦ absurd (cc ((h.safe.half_duplex e).0, on))
    | inr e ↦ e
  ]

  pub start_playing-IsSafe :
      (d : Device E W) → IsSafe d → is_offline d.voice_turn ≡ false → IsSafe (start_playing d)
  start_playing-IsSafe d h online = elim (Bool-cases d.microphone_running) [
    | inl e ↦
        let (off, r) = h.safe.half_duplex e in
        record {
          safe = recording-Exclusive (start_playing-speaker d ∙ off) (start_playing-recording d r);
        }
    | inr e ↦ record {
      safe = on_air (start_playing-online d online) (start_playing-microphone d ∙ e);
    }
  ]

module _ {E W : Type 0} (platform : Platform E W) where
  start_speaker-off :
      (d : Device E W)
      → IsSafe d
      → let d1 = (start_speaker platform d).1 in
        (d1.microphone_running ≡ false) × (d1.voice_turn ≡ d.voice_turn)
  unfolding start_speaker
  start_speaker-off d h =
      if_both
        (λ (r : Bool × Device E W).
          (r.1.microphone_running ≡ false) × (r.1.voice_turn ≡ d.voice_turn))
        d.speaker_running (λ on. (speaking-off d h on, refl))
        (λ _. ((stop_audio_bus-off platform d).0, (stop_audio_bus-off platform d).2))

  open_speaker-off :
      (d : Device E W)
      → IsSafe d
      → let d1 = (open_speaker platform d).1 in
        (d1.microphone_running ≡ false) × (d1.voice_turn ≡ d.voice_turn)
  unfolding open_speaker
  open_speaker-off d h =
      let P = λ (r : Bool × Device E W).
        (r.1.microphone_running ≡ false) × (r.1.voice_turn ≡ d.voice_turn) in
      if_both P d.speaker_running (λ on. (speaking-off d h on, refl))
        (λ _.
          unless_both P (start_speaker platform d).0 (λ _. start_speaker-off d h)
            (λ _. start_speaker-off d h))

  play-IsSafe :
      (c : DeviceConfig) (pcm : Bytes) (d : Device E W)
      → IsSafe d
      → is_offline d.voice_turn ≡ false
      → IsSafe (play platform c pcm d).1
  unfolding play
  play-IsSafe c pcm d h online =
      let (opened, d1) = open_speaker platform d in
      let off = open_speaker-off d h in
      let still = ap is_offline off.1 ∙ online in
      unless_both (λ (r : Bool × Device E W). IsSafe r.1) opened
        (λ _. record { safe = on_air still off.0 })
        (λ _. record {
          safe = on_air (start_playing-online d1 still) (start_playing-microphone d1 ∙ off.0);
        })

  pub write_output_audio-IsSafe :
      (encoded : Bytes) (d : Device E W)
      → IsSafe d
      → is_offline d.voice_turn ≡ false
      → IsSafe (write_output_audio platform encoded d).1
  unfolding write_output_audio
  write_output_audio-IsSafe encoded d h online =
      let (decoded, pcm) = decode_base64 encoded in
      let P = λ (r : Bool × Device E W). IsSafe r.1 in
      option_both P d.active_config (λ _. h)
        (λ c _.
          if_both P (not decoded || is_empty pcm || not (length pcm % 2 == 0))
            (λ _. record { safe = h.safe }) (λ _. play-IsSafe c pcm d h online))

  sync_completed_turn-IsSafe : (d : Device E W) → IsSafe d → IsSafe (sync_completed_turn platform d)
  unfolding sync_completed_turn
  sync_completed_turn-IsSafe d h =
      option_both IsSafe d.active_config (λ _. h)
        (λ c _. unless_both IsSafe c.qh_sync.enabled (λ _. h) (λ _. record { safe = h.safe }))

  pub complete_turn-IsSafe : (d : Device E W) → IsSafe (complete_turn platform d)
  unfolding complete_turn apply_turn millis
  complete_turn-IsSafe d =
      let d1 = stop_audio_bus platform d in
      let (completed, d2) = apply_turn VoiceTurnEvent.response_done d1 in
      let shown = record (show UiState.success d2) { success_display_active = true } in
      let (now, d3) = millis platform shown in
      unless_both IsSafe completed
        (λ _. fail_runtime-IsSafe platform (codes "provider_event_order_invalid") d2)
        (λ e.
          sync_completed_turn-IsSafe (record d3 { success_display_started_ms = now })
            (record {
              safe = on_air (completed-online d1.voice_turn e) (stop_audio_bus-off platform d).0;
            }))
