-- ===== src/Device/Safe/Loop.antt =====
-- esp32_voice_kit.ino, `setup` and `loop`: what is in use after any number of rounds.
use qh_voice_kit.Base.{◌≡◌, refl, Option, List, [], ◌∷◌, if_both, unless_both}
use qh_voice_kit.Base.Bytes.{Bytes}
use qh_voice_kit.Config.{DeviceConfig}
use qh_voice_kit.Device.{Platform, Device, new_device}
use qh_voice_kit.Device.Loop.{Firmware, StoreCalls, setup, start_device, services, loop, loops}
use qh_voice_kit.Device.Network.{service_network_runtime}
use qh_voice_kit.Device.Provider.{service_provider, service_button}
use qh_voice_kit.Device.Runtime.{millis}
use qh_voice_kit.Device.Safe.{IsSafe}
use qh_voice_kit.Device.Safe.Network.{
  start_configured_runtime-IsSafe, service_network_runtime-IsSafe,
}
use qh_voice_kit.Device.Safe.Provider.{service_provider-IsSafe, service_button-IsSafe}
use qh_voice_kit.Device.Safe.Recording.{service_recording-IsSafe}
use qh_voice_kit.Button
use qh_voice_kit.Receiver.{new_receiver, read_provisioning_serial}
use qh_voice_kit.Base.{false}
use qh_voice_kit.Transport.{RealtimeTransportStatus, RealtimeVoiceTransport}

module _ {E W S : Type 0} (platform : Platform E W) (store : StoreCalls S)
    (sha256_hex : Bytes → Bytes) where
  services-IsSafe : (d : Device E W) → IsSafe d → IsSafe (services platform store sha256_hex d)
  unfolding services
  services-IsSafe d h =
      let d1 = service_network_runtime platform d in
      let h1 = service_network_runtime-IsSafe platform d h in
      let d2 = service_provider platform d1 in
      let h2 = service_provider-IsSafe platform d1 h1 in
      let d3 = service_button platform d2 in
      let h3 = service_button-IsSafe platform d2 h2 in
      record { safe = (service_recording-IsSafe platform d3 h3).safe }

  start_device-IsSafe :
      (config : Option DeviceConfig) (d : Device E W)
      → IsSafe d
      → IsSafe (start_device platform store sha256_hex config d)
  unfolding start_device millis
  start_device-IsSafe config d h =
      let (level, e) = platform.button_is_high d.world in
      let (now, d1) = millis platform (record d { world = e }) in
      start_configured_runtime-IsSafe platform
        (record d1 { button = Button.begin level now d1.button; active_config = config })
        (record { safe = h.safe })

  setup-IsSafe :
      (f : Firmware E W S) → IsSafe f.device → IsSafe (setup platform store sha256_hex f).device
  unfolding setup
  setup-IsSafe f h =
      let d = record f.device { world = platform.delay 250 f.device.world } in
      let (buffer_ready, e) = platform.playback_begin d.world in
      let (ready, s) = store.begin_store f.receiver.store in
      let P = λ (g : Firmware E W S). IsSafe g.device in
      unless_both P buffer_ready (λ _. record { safe = h.safe })
        (λ _.
          unless_both P ready (λ _. record { safe = h.safe })
            (λ _.
              start_device-IsSafe (store.active_config s) (record d { world = e })
                (record { safe = h.safe })))

  loop-IsSafe :
      (bytes : Bytes) (f : Firmware E W S)
      → IsSafe f.device
      → IsSafe (loop platform store sha256_hex bytes f).device
  unfolding loop
  loop-IsSafe bytes f h =
      let r =
        read_provisioning_serial store.transaction store.active_config sha256_hex
          f.device.voice_turn bytes f.receiver in
      if_both (λ (g : Firmware E W S). IsSafe g.device) r.restarted (λ _. h)
        (λ _. services-IsSafe f.device h)

  loops-IsSafe :
      (rounds : List Bytes) (f : Firmware E W S)
      → IsSafe f.device
      → IsSafe (loops platform store sha256_hex rounds f).device
  unfolding loops
  loops-IsSafe [] f h = h
  loops-IsSafe (bytes ∷ earlier) f h =
      loop-IsSafe bytes (loops platform store sha256_hex earlier f) (loops-IsSafe earlier f h)

  -- Whatever the platform, the store and the serial line do, after `setup` of a new device, whose
  -- transport is idle and has no event, and any number of rounds of `loop`, the microphone runs only
  -- while the state is that of a recording, and never beside the speaker; and in the states without a
  -- connection to the service neither runs, the transport is idle, and no event waits.
  pub loops-setup-IsSafe :
      (rounds : List Bytes) (world : E) (s : S) (t : RealtimeVoiceTransport W)
      → t.status ≡ RealtimeTransportStatus.idle
      → t.events ≡ []
      → IsSafe
          (loops platform store sha256_hex rounds (
            setup platform store sha256_hex
              (record { receiver = new_receiver false s; device = new_device world t }))).device
  loops-setup-IsSafe rounds world s t idle none = loops-IsSafe rounds _ (
      setup-IsSafe (record { receiver = new_receiver false s; device = new_device world t })
        (record {
          safe = record {
            half_duplex = λ e. absurd (cc e);
            resting = λ _. (refl, refl, idle, none);
          };
        }))
