-- ===== src/Device/Safe/Network.antt =====
-- esp32_voice_kit.ino, `startConfiguredRuntime` and `serviceNetworkRuntime`: what is in use.
use qh_voice_kit.Base.{
  ◌≡◌, ap, ◌⊎◌, true, false, ◌&&◌, arith, if_both, unless_both, option_both, leb, inl, inr,
}
use qh_voice_kit.Base.Bytes.{codes}
use qh_voice_kit.Base.Words.{sub32}
use qh_voice_kit.Device.{
  Platform, Device, wifi_connect_timeout_ms, runtime_retry_delay_ms, clock_sync_timeout_ms,
  success_display_ms,
}
use qh_voice_kit.Device.Network.{
  earliest_time, is_online, start_configured_runtime, service_wifi, service_clock, retry,
  end_success, service_connected, service_network_runtime,
}
use qh_voice_kit.Device.Runtime.{apply_turn, in_state, millis}
use qh_voice_kit.Device.Safe.{state-eq, IsSafe, is_offline, with_turn, fail_runtime-IsSafe}
use qh_voice_kit.Device.Safe.Provider.{
  at_rest, connect_wifi-IsSafe, start_provider_connection-IsSafe,
}
use qh_voice_kit.Turn.{
  VoiceTurnState, apply, clock_synchronized, config_loaded, connecting_wifi, is_state, recover,
  syncing_clock,
}

synchronized-online :
    (s : VoiceTurnState) → s ≡ syncing_clock → is_offline (apply s clock_synchronized).0 ≡ false
unfolding apply
synchronized-online s h = ground arith

loaded-offline : (s : VoiceTurnState) → (is_offline s ≡ true) ⊎ ((apply s config_loaded).0 ≡ s)
unfolding apply
loaded-offline s = ground arith

in_error-offline :
    (s : VoiceTurnState) → is_state s VoiceTurnState.error ≡ true → is_offline s ≡ true
in_error-offline s e = ground arith

module _ {E W : Type 0} (platform : Platform E W) where
  pub start_configured_runtime-IsSafe :
      (d : Device E W) → IsSafe d → IsSafe (start_configured_runtime platform d)
  unfolding start_configured_runtime apply_turn
  start_configured_runtime-IsSafe d h =
      option_both IsSafe d.active_config (λ _. record { safe = h.safe })
        (λ c _.
          let (started, d1) = apply_turn config_loaded d in
          let h1 : IsSafe d1 = elim (loaded-offline d.voice_turn) [
            | inl offline ↦ at_rest d _ h offline
            | inr same ↦ record { safe = with_turn same h.safe }
          ] in
          if_both IsSafe started (λ _. connect_wifi-IsSafe platform d1 h1) (λ _. h1))

  service_wifi-IsSafe :
      (d : Device E W)
      → IsSafe d
      → d.voice_turn ≡ connecting_wifi
      → IsSafe (service_wifi platform d)
  unfolding service_wifi millis apply_turn
  service_wifi-IsSafe d h s =
      let (connected, e) = platform.wifi_is_connected d.world in
      let d1 = record d { world = e } in
      let (now, d3) = millis platform d1 in
      if_both IsSafe connected (λ _. record { safe = (at_rest d _ h (ap is_offline s)).safe })
        (λ _.
          if_both IsSafe (leb wifi_connect_timeout_ms (sub32 now d3.wifi_attempt_started_ms))
            (λ _.
              fail_runtime-IsSafe platform (codes "wifi_connect_timeout")
                (record d3 { world = platform.wifi_disconnect d3.world }))
            (λ _. record { safe = h.safe }))

  service_clock-IsSafe :
      (d : Device E W) → IsSafe d → d.voice_turn ≡ syncing_clock → IsSafe (service_clock platform d)
  unfolding service_clock millis apply_turn
  service_clock-IsSafe d h s =
      let (connected, e) = platform.wifi_is_connected d.world in
      let d1 = record d { world = e } in
      let (time, e1) = platform.time d1.world in
      let d2 = record d1 { world = e1 } in
      let (now, d3) = millis platform d2 in
      let rest = h.safe.resting (ap is_offline s) in
      unless_both IsSafe connected
        (λ _. fail_runtime-IsSafe platform (codes "wifi_disconnected") d1)
        (λ _.
          if_both IsSafe (leb earliest_time time)
            (λ _.
              start_provider_connection-IsSafe platform (apply_turn clock_synchronized d2).1
                (synchronized-online d.voice_turn s) rest.0)
            (λ _.
              if_both IsSafe (leb clock_sync_timeout_ms (sub32 now d3.clock_sync_started_ms))
                (λ _. fail_runtime-IsSafe platform (codes "clock_sync_timeout") d3)
                (λ _. record { safe = h.safe })))

  retry-IsSafe : (d : Device E W) → IsSafe d → IsSafe (retry platform d)
  unfolding retry millis apply_turn
  retry-IsSafe d h =
      let (now, d1) = millis platform d in
      let (recovered, d2) = apply_turn recover d1 in
      unless_both IsSafe (in_state VoiceTurnState.error d) (λ _. h)
        (λ e.
          let h2 : IsSafe d2 = record {
            safe = (at_rest d d2.voice_turn h (in_error-offline d.voice_turn e)).safe;
          } in
          unless_both IsSafe (leb runtime_retry_delay_ms (sub32 now d1.runtime_error_started_ms))
            (λ _. record { safe = h.safe })
            (λ _. if_both IsSafe recovered (λ _. connect_wifi-IsSafe platform d2 h2) (λ _. h2)))

  end_success-IsSafe : (d : Device E W) → IsSafe d → IsSafe (end_success platform d)
  unfolding end_success millis
  end_success-IsSafe d h =
      let (now, d1) = millis platform d in
      unless_both IsSafe (d.success_display_active && in_state VoiceTurnState.idle d) (λ _. h)
        (λ _.
          if_both IsSafe (leb success_display_ms (sub32 now d1.success_display_started_ms))
            (λ _. record { safe = h.safe }) (λ _. record { safe = h.safe }))

  service_connected-IsSafe : (d : Device E W) → IsSafe d → IsSafe (service_connected platform d)
  unfolding service_connected
  service_connected-IsSafe d h =
      let (connected, e) = platform.wifi_is_connected d.world in
      let d1 = record d { world = e } in
      unless_both IsSafe (is_online d.voice_turn)
        (λ _. end_success-IsSafe (retry platform d) (retry-IsSafe d h))
        (λ _.
          unless_both IsSafe connected
            (λ _. fail_runtime-IsSafe platform (codes "wifi_disconnected") d1)
            (λ _.
              end_success-IsSafe (retry platform d1) (retry-IsSafe d1 (record { safe = h.safe }))))

  pub service_network_runtime-IsSafe :
      (d : Device E W) → IsSafe d → IsSafe (service_network_runtime platform d)
  unfolding service_network_runtime
  service_network_runtime-IsSafe d h =
      if_both IsSafe (in_state connecting_wifi d)
        (λ e. service_wifi-IsSafe d h (state-eq d.voice_turn connecting_wifi e))
        (λ _.
          if_both IsSafe (in_state syncing_clock d)
            (λ e. service_clock-IsSafe d h (state-eq d.voice_turn syncing_clock e))
            (λ _. service_connected-IsSafe d h))
