-- ===== src/Device/Recovery.antt =====
-- esp32_voice_kit.ino, `failRuntime` and `serviceNetworkRuntime`: what a round of `loop` does in an
-- error. The children: the provider's service, and how long an error lasts.
pub mod Provider
pub mod Rounds
use mathlib.Core.Path.{subst}
use qh_voice_kit.Config.{DeviceConfig}
use qh_voice_kit.Display.{UiState}
use qh_voice_kit.Base.{
  sym, some, ◌+◌, ◌*◌, ◌%◌, ◌^◌, ◌≤◌, ◌<◌, ◌≡◌, ◌≢◌, refl, ap, ◌∙◌, Bool, true, false, ◌&&◌, ◌∷◌,
  arith, if◌then◌else◌, if_both, unless_both, leb,
}
use qh_voice_kit.Base.Words.{sub32}
use qh_voice_kit.Button
use qh_voice_kit.Device.{Platform, Device, state_view, runtime_retry_delay_ms}
use qh_voice_kit.Device.Network.{retry, end_success, service_connected, service_network_runtime}
use qh_voice_kit.Device.Provider.{service_button}
use qh_voice_kit.Device.Recording.{service_recording}
use qh_voice_kit.Device.Runtime.{apply_turn, connect_wifi, in_state, millis}
use qh_voice_kit.Turn.{recover, recording_and_streaming}
use qh_voice_kit.Turn.{is_state, VoiceTurnState, apply, connecting_wifi, error}

not_idle :
    (shown : Bool) (s : VoiceTurnState)
    → s ≡ error
    → (shown && is_state s VoiceTurnState.idle) ≡ true
    → ⊥
not_idle shown s h e = ground arith

recovers_to : apply error recover ≡ (connecting_wifi, true)
unfolding apply
recovers_to = refl

not_idle_when :
    (shown : Bool) (s : VoiceTurnState)
    → s ≡ connecting_wifi
    → (shown && is_state s VoiceTurnState.idle) ≡ true
    → ⊥
not_idle_when shown s h e = ground arith

not_recording :
    (released : Bool) (s : VoiceTurnState)
    → s ≡ error
    → (released && is_state s recording_and_streaming) ≡ true
    → ⊥
not_recording released s h e = ground arith

module _ {E W : Type 0} (platform : Platform E W) where
  -- The network service has left the error: the device is connecting, the radio was told to join
  -- the network of the configuration, behind one reading of the clock, and the time of the attempt
  -- is that of the reading behind it.
  pub record Reconnects (c : DeviceConfig) (d e : Device E W) : Type 0 where
    pub connecting : e.voice_turn ≡ connecting_wifi
    pub begun :
        e.world
        ≡ (platform.millis
            (platform.wifi_begin c.network.ssid c.network.password (platform.millis d.world).1)).1
    pub started :
        e.wifi_attempt_started_ms
        ≡ (platform.millis
            (platform.wifi_begin c.network.ssid c.network.password (platform.millis d.world).1)).0
    pub shown : e.screen ≡ state_view UiState.connecting

  connect_wifi-Reconnects :
      (c : DeviceConfig) (d : Device E W) (s : VoiceTurnState)
      → s ≡ connecting_wifi
      → d.active_config ≡ some c
      → Reconnects c d
          (connect_wifi platform (record d { world = (platform.millis d.world).1; voice_turn = s }))
  unfolding connect_wifi millis
  connect_wifi-Reconnects c d s t h = record {
    connecting = rw h t;
    begun = rw h refl;
    started = rw h refl;
    shown = rw h refl;
  }

  end_success-waits : (d : Device E W) → d.voice_turn ≡ error → end_success platform d ≡ d
  unfolding end_success
  end_success-waits d h =
      unless_both (λ (e : Device E W). e ≡ d)
        (d.success_display_active && in_state VoiceTurnState.idle d) (λ _. refl)
        (λ e. absurd (not_idle d.success_display_active d.voice_turn h e))

  in_error-connected :
      (d : Device E W)
      → d.voice_turn ≡ error
      → service_network_runtime platform d ≡ end_success platform (retry platform d)
  unfolding service_network_runtime service_connected
  in_error-connected d h = rw h refl

  -- Not due yet, the network service only reads the clock.
  pub network-waits :
      (d : Device E W)
      → d.voice_turn ≡ error
      → leb runtime_retry_delay_ms (sub32 (platform.millis d.world).0 d.runtime_error_started_ms)
        ≡ false
      → service_network_runtime platform d ≡ (millis platform d).1
  unfolding retry millis
  network-waits d h w =
      in_error-connected d h
      ∙ ap (end_success platform) (rw h (rw w refl))
      ∙ end_success-waits (millis platform d).1 h

  retry-Reconnects :
      (c : DeviceConfig) (d : Device E W)
      → d.active_config ≡ some c
      → d.voice_turn ≡ error
      → leb runtime_retry_delay_ms (sub32 (platform.millis d.world).0 d.runtime_error_started_ms)
        ≡ true
      → Reconnects c d (retry platform d)
  unfolding retry millis apply_turn
  retry-Reconnects c d configured h w =
      let P = Reconnects c d in
      let (now, d1) = millis platform d in
      let (recovered, d2) = apply_turn recover d1 in
      let r : apply d.voice_turn recover ≡ (connecting_wifi, true) =
        ap (λ (s : VoiceTurnState). apply s recover) h ∙ recovers_to in
      unless_both P (in_state VoiceTurnState.error d)
        (λ e. absurd (cc (e, ap (λ (s : VoiceTurnState). is_state s error) h)))
        (λ _.
          unless_both P (leb runtime_retry_delay_ms (sub32 now d1.runtime_error_started_ms))
            (λ e. absurd (cc (e, w)))
            (λ _.
              if_both P recovered
                (λ _.
                  connect_wifi-Reconnects c d (apply d.voice_turn recover).0 (ap (λ x. x.0) r)
                    configured)
                (λ k. absurd (cc (k, ap (λ x. x.1) r)))))

  end_success-Reconnects :
      (c : DeviceConfig) (d e : Device E W)
      → Reconnects c d e
      → Reconnects c d (end_success platform e)
  unfolding end_success
  end_success-Reconnects c d e r =
      unless_both (Reconnects c d) (e.success_display_active && in_state VoiceTurnState.idle e)
        (λ _. r) (λ k. absurd (not_idle_when e.success_display_active e.voice_turn r.connecting k))

  pub network-Reconnects :
      (c : DeviceConfig) (d : Device E W)
      → d.active_config ≡ some c
      → d.voice_turn ≡ error
      → leb runtime_retry_delay_ms (sub32 (platform.millis d.world).0 d.runtime_error_started_ms)
        ≡ true
      → Reconnects c d (service_network_runtime platform d)
  network-Reconnects c d configured h w =
      subst (Reconnects c d) (sym (in_error-connected d h))
        (end_success-Reconnects c d (retry platform d) (retry-Reconnects c d configured h w))

  pub recording-waits : (d : Device E W) → d.voice_turn ≡ error → service_recording platform d ≡ d
  unfolding service_recording
  recording-waits d h = rw h refl

  -- The button's level is read, and its debouncer's state may change.
  pub pressed_in_error :
      (d : Device E W)
      → d.voice_turn ≡ error
      → let (level, e) = platform.button_is_high d.world in
        let (now, w) = platform.millis e in
        service_button platform d
        ≡ record d { world = w; button = (Button.update level now d.button).1 }
  unfolding service_button millis
  pressed_in_error d h =
      let (level, e) = platform.button_is_high d.world in
      let (now, d1) = millis platform (record d { world = e }) in
      let (changed, b) = Button.update level now d1.button in
      let d2 = record d1 { button = b } in
      let P = λ (x : Device E W). x ≡ d2 in
      unless_both P changed (λ _. refl)
        (λ _.
          if_both P (b.changed_to_pressed && in_state VoiceTurnState.idle d2)
            (λ k. absurd (not_idle b.changed_to_pressed d.voice_turn h k))
            (λ _.
              if_both P (b.changed_to_released && in_state recording_and_streaming d2)
                (λ k. absurd (not_recording b.changed_to_released d.voice_turn h k)) (λ _. refl)))
