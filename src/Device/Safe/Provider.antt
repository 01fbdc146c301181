-- ===== src/Device/Safe/Provider.antt =====
-- esp32_voice_kit.ino, `startProviderConnection`, `serviceProvider` and `serviceButton`: what
-- is in use.
use qh_voice_kit.Base.{
  ◌≡◌, true, false, not, ◌&&◌, ◌||◌, arith, if◌then◌else◌, if_both, unless_both, option_both, leb,
  Bool-cases, inl, inr,
}
use qh_voice_kit.Base.Bytes.{codes}
use qh_voice_kit.Base.Words.{sub32}
use qh_voice_kit.Button
use qh_voice_kit.Device.{
  Platform, Device, provider_connect_timeout_ms, provider_response_timeout_ms,
}
use qh_voice_kit.Device.Events.{provider_error_code, service_realtime_events}
use qh_voice_kit.Device.Provider.{
  start_provider_connection, poll_transport, service_answer, service_status, service_provider,
  service_button, session_of,
}
use qh_voice_kit.Device.Runtime.{apply_turn, connect_wifi, in_state, make_request_id, millis}
use qh_voice_kit.Device.Safe.{state-eq, IsSafe, is_offline, on_air, fail_runtime-IsSafe}
use qh_voice_kit.Device.Safe.Turns.{complete_turn-IsSafe}
use qh_voice_kit.Device.Safe.Events.{service_realtime_events-IsSafe}
use qh_voice_kit.Device.Safe.Recording.{begin_recording-IsSafe, finish_recording-IsSafe}
use qh_voice_kit.Realtime.{safe_realtime_error_code}
use qh_voice_kit.Transport.{
  RealtimeTransportStatus, begin_session, disconnected, has_status, protocol_failed,
  provider_failed, ready,
}
use qh_voice_kit.Turn.{
  VoiceTurnState, apply, connecting_provider, playing, recording_and_streaming, waiting_response,
  provider_connected,
}

connected-online :
    (s : VoiceTurnState)
    → s ≡ connecting_provider
    → is_offline (apply s provider_connected).0 ≡ false
unfolding apply
connected-online s h = ground arith

not-idle :
    (s : RealtimeTransportStatus)
    → s ≡ RealtimeTransportStatus.idle
    → not (has_status s RealtimeTransportStatus.idle) ≡ true
    → ⊥
not-idle s h e = ground arith

module _ {E W : Type 0} where
  -- Offline, the state does not matter.
  pub at_rest :
      (d : Device E W) (turn : VoiceTurnState)
      → IsSafe d
      → is_offline d.voice_turn ≡ true
      → IsSafe (record d { voice_turn = turn })
  at_rest d turn h offline =
      let rest = h.safe.resting offline in
      record { safe = record { half_duplex = λ e. absurd (cc (e, rest.0)); resting = λ _. rest } }

  silent :
      (d : Device E W)
      → IsSafe d
      → d.voice_turn ≡ connecting_provider
      → d.microphone_running ≡ false
  silent d h e = elim (Bool-cases d.microphone_running) [
    | inl on ↦ absurd (cc ((h.safe.half_duplex on).1, e))
    | inr off ↦ off
  ]

module _ {E W : Type 0} (platform : Platform E W) where
  pub connect_wifi-IsSafe : (d : Device E W) → IsSafe d → IsSafe (connect_wifi platform d)
  unfolding connect_wifi millis
  connect_wifi-IsSafe d h =
      option_both IsSafe d.active_config (λ _. h) (λ c _. record { safe = h.safe })

  pub start_provider_connection-IsSafe :
      (d : Device E W)
      → is_offline d.voice_turn ≡ false
      → d.microphone_running ≡ false
      → IsSafe (start_provider_connection platform d)
  unfolding start_provider_connection make_request_id millis
  start_provider_connection-IsSafe d online off =
      option_both IsSafe d.active_config (λ _. record { safe = on_air online off })
        (λ c _.
          let (id, d1) = make_request_id platform d in
          let (begun, t) =
            begin_session platform.socket c.realtime_voice (session_of c id)
              d1.realtime_transport in
          let d2 = record d1 { realtime_transport = t } in
          unless_both IsSafe (in_state connecting_provider d)
            (λ _. record { safe = on_air online off })
            (λ _.
              unless_both IsSafe begun
                (λ _. fail_runtime-IsSafe platform (codes "provider_config_invalid") d2)
                (λ _. record { safe = on_air online off })))

  poll_transport-IsSafe : (d : Device E W) → IsSafe d → IsSafe (poll_transport platform d)
  unfolding poll_transport
  poll_transport-IsSafe d h =
      if_both IsSafe (not (has_status d.realtime_transport.status RealtimeTransportStatus.idle))
        (λ e. record {
          safe = record {
            half_duplex = h.safe.half_duplex;
            resting = λ offline. absurd (not-idle _ (h.safe.resting offline).2 e);
          };
        })
        (λ _. h)

  -- The two tests that may read the state of the playback and the clock.
  service_answer-IsSafe : (d : Device E W) → IsSafe d → IsSafe (service_answer platform d)
  unfolding service_answer millis
  service_answer-IsSafe d h =
      let (failed, failed_world) = platform.playback_failed d.world in
      let d1 = if in_state playing d then record d { world = failed_world } else d in
      let awaits = in_state waiting_response d1 || in_state playing d1 in
      let (now, timed) = millis platform d1 in
      let d2 = if awaits then timed else d1 in
      let (drained, drained_world) = platform.playback_drained d2.world in
      let h1 : IsSafe d1 =
        if_both IsSafe (in_state playing d) (λ _. record { safe = h.safe }) (λ _. h) in
      let h2 : IsSafe d2 = if_both IsSafe awaits (λ _. record { safe = h1.safe }) (λ _. h1) in
      let d3 = record d2 { world = drained_world } in
      if_both IsSafe (in_state playing d && failed)
        (λ _. fail_runtime-IsSafe platform (codes "playback_failed") d1)
        (λ _.
          if_both IsSafe
            (awaits && leb provider_response_timeout_ms (sub32 now d1.response_started_ms))
            (λ _. fail_runtime-IsSafe platform (codes "provider_response_timeout") d2)
            (λ _.
              unless_both IsSafe
                (d2.speaker_running && d2.response_done_received && d2.output_audio_done_received)
                (λ _. h2)
                (λ _.
                  if_both IsSafe drained (λ _. complete_turn-IsSafe platform d3)
                    (λ _. record { safe = h2.safe }))))

  service_status-IsSafe :
      (status : RealtimeTransportStatus) (d : Device E W)
      → IsSafe d
      → IsSafe (service_status platform status d)
  unfolding service_status
  service_status-IsSafe provider_failed d h =
      fail_runtime-IsSafe platform
        (provider_error_code (safe_realtime_error_code d.realtime_transport.provider_error_code)) d
  service_status-IsSafe protocol_failed d h =
      fail_runtime-IsSafe platform (codes "provider_protocol_failed") d
  service_status-IsSafe disconnected d h =
      unless_both IsSafe (in_state VoiceTurnState.error d)
        (λ _. fail_runtime-IsSafe platform (codes "provider_disconnected") d)
        (λ _. service_answer-IsSafe d h)
  service_status-IsSafe _ d h = service_answer-IsSafe d h

  pub service_provider-IsSafe : (d : Device E W) → IsSafe d → IsSafe (service_provider platform d)
  unfolding service_provider apply_turn millis
  service_provider-IsSafe d h =
      let d1 = service_realtime_events platform (poll_transport platform d) in
      let h1 : IsSafe d1 =
        service_realtime_events-IsSafe platform (poll_transport platform d)
          (poll_transport-IsSafe d h) in
      let (now, d2) = millis platform d1 in
      unless_both IsSafe (in_state connecting_provider d1)
        (λ _. service_status-IsSafe d1.realtime_transport.status d1 h1)
        (λ e.
          let s : d1.voice_turn ≡ connecting_provider =
            state-eq d1.voice_turn connecting_provider e in
          if_both IsSafe (has_status d1.realtime_transport.status ready)
            (λ _. record { safe = on_air (connected-online d1.voice_turn s) (silent d1 h1 s) })
            (λ _.
              if_both IsSafe
                (leb provider_connect_timeout_ms (sub32 now d2.provider_connect_started_ms))
                (λ _. fail_runtime-IsSafe platform (codes "provider_connect_timeout") d2)
                (λ _.
                  service_status-IsSafe d2.realtime_transport.status d2
                    (record { safe = h1.safe }))))

  pub service_button-IsSafe : (d : Device E W) → IsSafe d → IsSafe (service_button platform d)
  unfolding service_button millis
  service_button-IsSafe d h =
      let (raw_level, e) = platform.button_is_high d.world in
      let (now, d1) = millis platform (record d { world = e }) in
      let (changed, b) = Button.update raw_level now d1.button in
      let d2 = record d1 { button = b } in
      let h2 : IsSafe d2 = record { safe = h.safe } in
      unless_both IsSafe changed (λ _. h2)
        (λ _.
          if_both IsSafe (b.changed_to_pressed && in_state VoiceTurnState.idle d2)
            (λ _. begin_recording-IsSafe platform d2 h2)
            (λ _.
              if_both IsSafe (b.changed_to_released && in_state recording_and_streaming d2)
                (λ _. finish_recording-IsSafe platform d2 h2) (λ _. h2)))
