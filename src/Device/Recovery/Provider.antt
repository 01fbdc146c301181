-- ===== src/Device/Recovery/Provider.antt =====
-- esp32_voice_kit.ino, `serviceProvider` in an error.
use qh_voice_kit.Base.{◌≡◌, refl, ap, ◌∙◌, false, not, [], if◌then◌else◌, leb, length}
use qh_voice_kit.Base.Bytes.{codes}
use qh_voice_kit.Base.Words.{sub32}
use qh_voice_kit.Device.{Platform, Device, provider_connect_timeout_ms}
use qh_voice_kit.Device.Provider.{poll_transport, service_answer, service_status, service_provider}
use qh_voice_kit.Device.Drain.Rounds.{loop_done}
use qh_voice_kit.Display.{UiState}
use qh_voice_kit.Device.Events.{service_realtime_events}
use qh_voice_kit.Device.Runtime.{apply_turn, fail_runtime, in_state, show, millis}
use qh_voice_kit.Device.Safe.{IsSafe, is_offline}
use qh_voice_kit.Transport.{has_status, ready, RealtimeTransportStatus}
use qh_voice_kit.Turn.{connecting_provider, provider_connected}
use qh_voice_kit.Turn.{error}

module _ {E W : Type 0} (platform : Platform E W) where
  answer-waits :
      (d : Device E W)
      → d.voice_turn ≡ error
      → d.speaker_running ≡ false
      → service_answer platform d ≡ d
  unfolding service_answer millis
  answer-waits d h k = rw (h, k) refl

  poll-waits :
      (d : Device E W)
      → d.realtime_transport.status ≡ RealtimeTransportStatus.idle
      → poll_transport platform d ≡ d
  unfolding poll_transport
  poll-waits d h = rw h refl

  status-waits :
      (d : Device E W)
      → d.realtime_transport.status ≡ RealtimeTransportStatus.idle
      → d.voice_turn ≡ error
      → d.speaker_running ≡ false
      → service_status platform d.realtime_transport.status d ≡ d
  unfolding service_status
  status-waits d s h k =
      ap (λ (t : RealtimeTransportStatus). service_status platform t d) s ∙ answer-waits d h k

  -- `serviceProvider` behind the events.
  abbrev behind_events : Device E W → Device E W
  behind_events d1 =
      let (now, d2) = millis platform d1 in
      if not (in_state connecting_provider d1)
      then service_status platform d1.realtime_transport.status d1
      else if has_status d1.realtime_transport.status ready
      then show UiState.idle (apply_turn provider_connected d1).1
      else if leb provider_connect_timeout_ms (sub32 now d2.provider_connect_started_ms)
      then fail_runtime platform (codes "provider_connect_timeout") d2
      else service_status platform d2.realtime_transport.status d2

  service_provider-eq :
      (d : Device E W)
      → service_provider platform d
        ≡ behind_events (service_realtime_events platform (poll_transport platform d))
  unfolding service_provider
  service_provider-eq d = refl

  events-wait :
      (d : Device E W) → d.realtime_transport.events ≡ [] → service_realtime_events platform d ≡ d
  unfolding service_realtime_events
  events-wait d e = loop_done platform (length d.realtime_transport.events) d e

  behind-waits :
      (d : Device E W)
      → d.voice_turn ≡ error
      → behind_events d ≡ service_status platform d.realtime_transport.status d
  behind-waits d h = rw h refl

  pub provider-waits :
      (d : Device E W) → d.voice_turn ≡ error → IsSafe d → service_provider platform d ≡ d
  provider-waits d h s =
      let rest = s.safe.resting (ap is_offline h) in
      service_provider-eq d
      ∙ ap (λ (e : Device E W). behind_events (service_realtime_events platform e))
          (poll-waits d rest.2)
      ∙ ap behind_events (events-wait d rest.3)
      ∙ behind-waits d h
      ∙ status-waits d rest.2 h rest.1
