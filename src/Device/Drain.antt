-- ===== src/Device/Drain.antt =====
-- esp32_voice_kit.ino, `serviceRealtimeEvents`: the queue of events behind one round.
-- The child: behind the loop.
pub mod Rounds
use qh_voice_kit.Base.{
  ◌<◌, ◌≡◌, refl, ap, ◌∙◌, ◌⊎◌, inl, inr, Bool, true, false, not, ◌&&◌, ◌||◌, [], ◌∷◌, ◌==◌, ◌%◌,
  arith, if◌then◌else◌, if_both, unless_both, option_both, length,
}
use qh_voice_kit.Base.Bytes.{Bytes, codes, is_empty}
use qh_voice_kit.Base64.{decode_base64}
use qh_voice_kit.Config.{DeviceConfig}
use qh_voice_kit.Device.{Platform, Device, Accent, yellow, green}
use qh_voice_kit.Device.Events.{handle_event, provider_error_code, show_text, shows_reply_text}
use qh_voice_kit.Device.Runtime.{
  apply_turn, fail_runtime, millis, start_speaker, stop_audio_bus, show,
}
use qh_voice_kit.Display.{UiState}
use qh_voice_kit.Device.Safe.{stop_audio_bus-off}
use qh_voice_kit.Device.Turns.{
  complete_turn, open_speaker, play, start_playing, sync_completed_turn, write_output_audio,
}
use qh_voice_kit.Realtime.{
  RealtimeEvent, RealtimeEventType, protocol_error, transcript_completed, transcript_failed,
  output_text_done, output_audio_started, output_audio_delta, response_done, response_canceled,
  error, safe_realtime_error_code,
}
use qh_voice_kit.Transport.{RealtimeVoiceTransport, close}
use qh_voice_kit.Turn.{VoiceTurnEvent}

module _ {E W : Type 0} where
  -- The transport of a device is another's.
  pub record SameTransport (d e : Device E W) : Type 0 where
    pub same : e.realtime_transport ≡ d.realtime_transport

  start_playing-SameTransport : (d : Device E W) → SameTransport d (start_playing d)
  unfolding start_playing apply_turn
  start_playing-SameTransport d = record { same = ground arith }

  show_text-SameTransport :
      (title text : Bytes) (accent : Accent) (d : Device E W)
      → SameTransport d (show_text title text accent d)
  show_text-SameTransport title text accent d =
      if_both (SameTransport d) (shows_reply_text d.active_config && not (is_empty text))
        (λ _. record { same = refl }) (λ _. record { same = refl })

  -- A round that ends the loop leaves no event, and another one the queue or nothing.
  pub record Drained (d : Device E W) (r : Bool × Device E W) : Type 0 where
    pub outcome :
        (r.1.realtime_transport.events ≡ [])
        ⊎ ((r.0 ≡ true) × (r.1.realtime_transport.events ≡ d.realtime_transport.events))

  same-Drained : (d e : Device E W) → SameTransport d e → Drained d (true, e)
  same-Drained d e h = record {
    outcome = inr (refl, ap (λ (t : RealtimeVoiceTransport W). t.events) h.same);
  }

module _ {E W : Type 0} (platform : Platform E W) where
  open_speaker-SameTransport : (d : Device E W) → SameTransport d (open_speaker platform d).1
  unfolding open_speaker start_speaker
  open_speaker-SameTransport d =
      let P = λ (r : Bool × Device E W). SameTransport d r.1 in
      let same = (stop_audio_bus-off platform d).3 in
      let started : P (start_speaker platform d) =
        if_both P d.speaker_running (λ _. record { same = refl }) (λ _. record { same = same }) in
      if_both P d.speaker_running (λ _. record { same = refl })
        (λ _.
          unless_both P (start_speaker platform d).0 (λ _. record { same = started.same })
            (λ _. record { same = started.same }))

  play-SameTransport :
      (c : DeviceConfig) (pcm : Bytes) (d : Device E W) → SameTransport d (play platform c pcm d).1
  unfolding play
  play-SameTransport c pcm d =
      let (opened, d1) = open_speaker platform d in
      let same = (open_speaker-SameTransport d).same in
      unless_both (λ (r : Bool × Device E W). SameTransport d r.1) opened
        (λ _. record { same = same })
        (λ _. record { same = (start_playing-SameTransport d1).same ∙ same })

  write_output_audio-SameTransport :
      (encoded : Bytes) (d : Device E W) → SameTransport d (write_output_audio platform encoded d).1
  unfolding write_output_audio
  write_output_audio-SameTransport encoded d =
      let (decoded, pcm) = decode_base64 encoded in
      let P = λ (r : Bool × Device E W). SameTransport d r.1 in
      option_both P d.active_config (λ _. record { same = refl })
        (λ c _.
          if_both P (not decoded || is_empty pcm || not (length pcm % 2 == 0))
            (λ _. record { same = refl }) (λ _. play-SameTransport c pcm d))

  sync_completed_turn-SameTransport :
      (d : Device E W) → SameTransport d (sync_completed_turn platform d)
  unfolding sync_completed_turn
  sync_completed_turn-SameTransport d =
      option_both (SameTransport d) d.active_config (λ _. record { same = refl })
        (λ c _.
          unless_both (SameTransport d) c.qh_sync.enabled (λ _. record { same = refl })
            (λ _. record { same = refl }))

  failed-events :
      (code : Bytes) (d : Device E W)
      → (fail_runtime platform code d).realtime_transport.events ≡ []
  unfolding fail_runtime apply_turn millis close
  failed-events code d = refl

  complete_turn-Drained : (d : Device E W) → Drained d (true, complete_turn platform d)
  unfolding complete_turn apply_turn millis
  complete_turn-Drained d =
      let P = λ (e : Device E W). Drained d (true, e) in
      let d1 = stop_audio_bus platform d in
      let (completed, d2) = apply_turn VoiceTurnEvent.response_done d1 in
      let shown = record (show UiState.success d2) { success_display_active = true } in
      let (now, d3) = millis platform shown in
      let d4 = record d3 { success_display_started_ms = now } in
      unless_both P completed
        (λ _. record { outcome = inl (failed-events (codes "provider_event_order_invalid") d2) })
        (λ _. same-Drained d (sync_completed_turn platform d4) (record {
          same = (sync_completed_turn-SameTransport d4).same ∙ (stop_audio_bus-off platform d).3;
        }))

  fail-Drained : (code : Bytes) (d e : Device E W) → Drained d (false, fail_runtime platform code e)
  fail-Drained code d e = record { outcome = inl (failed-events code e) }

  pub handle_event-Drained :
      (event : RealtimeEvent) (kind : RealtimeEventType) (d : Device E W)
      → Drained d (handle_event platform event kind d)
  unfolding handle_event
  handle_event-Drained event transcript_completed d =
      let heard = if not (is_empty event.text) then event.text else d.current_transcript in
      same-Drained d _ (record {
        same =
            (show_text-SameTransport _ heard yellow (record d { current_transcript = heard })).same;
      })
  handle_event-Drained event output_text_done d =
      let reply = if not (is_empty event.text) then event.text else d.current_reply in
      same-Drained d _ (record {
        same = (show_text-SameTransport _ reply green (record d { current_reply = reply })).same;
      })
  handle_event-Drained event output_audio_started d =
      same-Drained d (show UiState.playing (start_playing d))
        (record { same = (start_playing-SameTransport d).same })
  handle_event-Drained event output_audio_delta d =
      let (written, d1) = write_output_audio platform event.audio_base64 d in
      unless_both (Drained d) written (λ _. fail-Drained (codes "playback_failed") d d1)
        (λ _. same-Drained d d1 (write_output_audio-SameTransport event.audio_base64 d))
  handle_event-Drained event response_done d =
      let d1 = record d { response_done_received = true } in
      unless_both (λ (e : Device E W). Drained d (true, e)) d1.speaker_running
        (λ _. record { outcome = (complete_turn-Drained d1).outcome })
        (λ _. same-Drained d d1 (record { same = refl }))
  handle_event-Drained event response_canceled d =
      fail-Drained (codes "provider_response_failed") d d
  handle_event-Drained event transcript_failed d =
      fail-Drained (codes "provider_response_failed") d d
  handle_event-Drained event error d =
      fail-Drained (provider_error_code (safe_realtime_error_code event.error_code)) d d
  handle_event-Drained event protocol_error d = fail-Drained (codes "provider_protocol_failed") d d
  handle_event-Drained event _ d = record { outcome = inr (refl, refl) }
