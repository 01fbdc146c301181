-- ===== src/Device/Network.antt =====
-- esp32_voice_kit.ino, `startConfiguredRuntime` and `serviceNetworkRuntime`: the network, the clock,
-- and the way out of an error.
use qh_voice_kit.Base.{ℕ, Bool, true, false, not, ◌&&◌, none, some, leb, if◌then◌else◌}
use qh_voice_kit.Base.Bytes.{codes}
use qh_voice_kit.Base.Words.{sub32}
use qh_voice_kit.Device.{
  Platform, Device, wifi_connect_timeout_ms, runtime_retry_delay_ms, clock_sync_timeout_ms,
  success_display_ms,
}
use qh_voice_kit.Device.Provider.{start_provider_connection}
use qh_voice_kit.Device.Runtime.{millis, show, apply_turn, in_state, connect_wifi, fail_runtime}
use qh_voice_kit.Display.{UiState}
use qh_voice_kit.Turn.{
  VoiceTurnState, config_loaded, wifi_connected, clock_synchronized, recover, connecting_wifi,
  syncing_clock, connecting_provider, recording_and_streaming, waiting_response, playing, error,
  idle,
}

-- The start of the year 2024, before which the clock is not set.
abbrev pub earliest_time : ℕ
earliest_time = 1704067200

-- The states in which the connection to the service is kept.
abbrev pub is_online : VoiceTurnState → Bool
is_online connecting_provider = true
is_online idle = true
is_online recording_and_streaming = true
is_online waiting_response = true
is_online playing = true
is_online _ = false

module _ {E W : Type 0} (platform : Platform E W) where
  unfoldable pub start_configured_runtime : Device E W → Device E W
  unfolding apply_turn connect_wifi
  start_configured_runtime d = elim d.active_config [
    | none ↦ show UiState.setup_required d
    | some _ ↦
        let (started, d1) = apply_turn config_loaded d in
        if started then connect_wifi platform d1 else d1
  ]

  unfoldable pub service_wifi : Device E W → Device E W
  unfolding millis apply_turn
  service_wifi d =
      let (connected, e) = platform.wifi_is_connected d.world in
      let d1 = record d { world = e } in
      let (_, joined) = apply_turn wifi_connected d1 in
      let (joined_at, d2) =
        millis platform (record joined { world = platform.config_time joined.world }) in
      let (now, d3) = millis platform d1 in
      if connected
      then record d2 { clock_sync_started_ms = joined_at }
      else if leb wifi_connect_timeout_ms (sub32 now d3.wifi_attempt_started_ms)
      then fail_runtime platform (codes "wifi_connect_timeout")
          (record d3 { world = platform.wifi_disconnect d3.world })
      else d3

  unfoldable pub service_clock : Device E W → Device E W
  unfolding millis apply_turn
  service_clock d =
      let (connected, e) = platform.wifi_is_connected d.world in
      let d1 = record d { world = e } in
      let (time, e1) = platform.time d1.world in
      let d2 = record d1 { world = e1 } in
      let (now, d3) = millis platform d2 in
      if not connected
      then fail_runtime platform (codes "wifi_disconnected") d1
      else if leb earliest_time time
      then start_provider_connection platform (apply_turn clock_synchronized d2).1
      else if leb clock_sync_timeout_ms (sub32 now d3.clock_sync_started_ms)
      then fail_runtime platform (codes "clock_sync_timeout") d3
      else d3

  unfoldable pub retry : Device E W → Device E W
  unfolding millis apply_turn connect_wifi
  retry d =
      let (now, d1) = millis platform d in
      let (recovered, d2) = apply_turn recover d1 in
      if not (in_state error d)
      then d
      else if not (leb runtime_retry_delay_ms (sub32 now d1.runtime_error_started_ms))
      then d1
      else if recovered
      then connect_wifi platform d2
      else d2

  unfoldable pub end_success : Device E W → Device E W
  unfolding millis
  end_success d =
      let (now, d1) = millis platform d in
      if not (d.success_display_active && in_state idle d)
      then d
      else if leb success_display_ms (sub32 now d1.success_display_started_ms)
      then show UiState.idle (record d1 { success_display_active = false })
      else d1

  -- Behind the tests of the first two states.
  unfoldable pub service_connected : Device E W → Device E W
  unfolding retry end_success
  service_connected d =
      let (connected, e) = platform.wifi_is_connected d.world in
      let d1 = record d { world = e } in
      if not (is_online d.voice_turn)
      then end_success (retry d)
      else if not connected
      then fail_runtime platform (codes "wifi_disconnected") d1
      else end_success (retry d1)

  unfoldable pub service_network_runtime : Device E W → Device E W
  unfolding service_wifi service_clock service_connected
  service_network_runtime d =
      if in_state connecting_wifi d
      then service_wifi d
      else if in_state syncing_clock d
      then service_clock d
      else service_connected d
