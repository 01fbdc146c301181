-- ===== src/Device/Safe/Events.antt =====
-- esp32_voice_kit.ino, `serviceRealtimeEvents`: what is in use.
use qh_voice_kit.Base.{
  zero, suc, ℕ, ◌≡◌, ◌∙◌, Bool, true, false, not, ◌&&◌, none, some, [], arith, if◌then◌else◌,
  if_both, unless_both, option_both, length, Bool-cases, inl, inr,
}
use qh_voice_kit.Base.Bytes.{Bytes, codes, is_empty}
use qh_voice_kit.Device.{Platform, Device, Accent, yellow, green}
use qh_voice_kit.Device.Events.{
  handle_event, events_loop, service_realtime_events, provider_error_code, show_text,
  shows_reply_text,
}
use qh_voice_kit.Device.Safe.{is_offline, IsSafe, fail_runtime-IsSafe}
use qh_voice_kit.Device.Turns.{write_output_audio}
use qh_voice_kit.Realtime.{
  RealtimeEvent, RealtimeEventType, protocol_error, transcript_delta, transcript_completed,
  transcript_failed, output_text_delta, output_text_done, output_audio_started, output_audio_delta,
  output_audio_done, response_done, response_canceled, error, safe_realtime_error_code,
}
use qh_voice_kit.Transport.{SocketLibrary, RealtimeVoiceTransport, pop_event}
use qh_voice_kit.Device.Safe.Turns.{
  start_playing-IsSafe, write_output_audio-IsSafe, complete_turn-IsSafe,
}

module _ {W : Type 0} (lib : SocketLibrary W) (t : RealtimeVoiceTransport W) where
  pop_event-status : (pop_event lib t).1.status ≡ t.status
  unfolding pop_event
  pop_event-status = ground arith

  pop_event-empty : t.events ≡ [] → (pop_event lib t).1.events ≡ []
  unfolding pop_event
  pop_event-empty h = ground arith

  pop_event-nil : t.events ≡ [] → (pop_event lib t).0 ≡ none
  unfolding pop_event
  pop_event-nil h = ground arith

module _ {E W : Type 0} where
  show_text-IsSafe :
      (title text : Bytes) (accent : Accent) (d : Device E W)
      → IsSafe d
      → IsSafe (show_text title text accent d)
  show_text-IsSafe title text accent d h =
      if_both IsSafe (shows_reply_text d.active_config && not (is_empty text))
        (λ _. record { safe = h.safe }) (λ _. h)

module _ {E W : Type 0} (platform : Platform E W) where
  handle_event-IsSafe :
      (event : RealtimeEvent) (kind : RealtimeEventType) (d : Device E W)
      → IsSafe d
      → is_offline d.voice_turn ≡ false
      → IsSafe (handle_event platform event kind d).1
  unfolding handle_event
  handle_event-IsSafe event transcript_delta d h online = record { safe = h.safe }
  handle_event-IsSafe event transcript_completed d h online =
      let heard = if not (is_empty event.text) then event.text else d.current_transcript in
      show_text-IsSafe _ heard yellow (record d { current_transcript = heard })
        (record { safe = h.safe })
  handle_event-IsSafe event output_text_delta d h online = record { safe = h.safe }
  handle_event-IsSafe event output_text_done d h online =
      let reply = if not (is_empty event.text) then event.text else d.current_reply in
      show_text-IsSafe _ reply green (record d { current_reply = reply }) (record { safe = h.safe })
  handle_event-IsSafe event output_audio_started d h online = record {
    safe = (start_playing-IsSafe d h online).safe;
  }
  handle_event-IsSafe event output_audio_delta d h online =
      let (written, d1) = write_output_audio platform event.audio_base64 d in
      unless_both (λ (r : Bool × Device E W). IsSafe r.1) written
        (λ _. fail_runtime-IsSafe platform (codes "playback_failed") d1)
        (λ _. write_output_audio-IsSafe platform event.audio_base64 d h online)
  handle_event-IsSafe event output_audio_done d h online = record { safe = h.safe }
  handle_event-IsSafe event response_done d h online =
      let d1 = record d { response_done_received = true } in
      unless_both IsSafe d1.speaker_running (λ _. complete_turn-IsSafe platform d1)
        (λ _. record { safe = h.safe })
  handle_event-IsSafe event response_canceled d h online =
      fail_runtime-IsSafe platform (codes "provider_response_failed") d
  handle_event-IsSafe event transcript_failed d h online =
      fail_runtime-IsSafe platform (codes "provider_response_failed") d
  handle_event-IsSafe event error d h online =
      fail_runtime-IsSafe platform (provider_error_code (safe_realtime_error_code event.error_code))
        d
  handle_event-IsSafe event protocol_error d h online =
      fail_runtime-IsSafe platform (codes "provider_protocol_failed") d
  handle_event-IsSafe event _ d h online = record { safe = h.safe }

  -- An event waits only online, and what is left of the queue is no more than before.
  popped-online :
      (d : Device E W) (event : RealtimeEvent)
      → IsSafe d
      → (pop_event platform.socket d.realtime_transport).0 ≡ some event
      → is_offline d.voice_turn ≡ false
  popped-online d event h e = elim (Bool-cases (is_offline d.voice_turn)) [
    | inl offline ↦
        absurd
          (cc (pop_event-nil platform.socket d.realtime_transport (h.safe.resting offline).3, e))
    | inr online ↦ online
  ]

  popped-IsSafe :
      (d : Device E W)
      → IsSafe d
      → IsSafe
          (record d { realtime_transport = (pop_event platform.socket d.realtime_transport).1 })
  popped-IsSafe d h =
      let same = pop_event-status platform.socket d.realtime_transport in
      record {
        safe = record {
          half_duplex = h.safe.half_duplex;
          resting = λ offline.
              let rest = h.safe.resting offline in
              (
                rest.0,
                rest.1,
                same ∙ rest.2,
                pop_event-empty platform.socket d.realtime_transport rest.3,
              );
        };
      }

  events_loop-IsSafe :
      (rounds : ℕ) (d : Device E W) → IsSafe d → IsSafe (events_loop platform rounds d)
  unfolding events_loop
  events_loop-IsSafe zero d h = h
  events_loop-IsSafe (suc rounds) d h =
      let (popped, t) = pop_event platform.socket d.realtime_transport in
      let d1 = record d { realtime_transport = t } in
      option_both IsSafe popped (λ _. popped-IsSafe d h)
        (λ event e.
          let (more, d2) = handle_event platform event event.kind d1 in
          let handled =
            handle_event-IsSafe event event.kind d1 (popped-IsSafe d h)
              (popped-online d event h e) in
          if_both IsSafe more (λ _. events_loop-IsSafe rounds d2 handled) (λ _. handled))

  -- The events that the service has reported are handled.
  pub service_realtime_events-IsSafe :
      (d : Device E W) → IsSafe d → IsSafe (service_realtime_events platform d)
  unfolding service_realtime_events
  service_realtime_events-IsSafe d h =
      events_loop-IsSafe (suc (length d.realtime_transport.events)) d h
