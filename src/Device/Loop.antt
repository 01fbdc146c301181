-- ===== src/Device/Loop.antt =====
-- esp32_voice_kit.ino, `setup` and `loop`: the services in their order, beside the serial line.
use qh_voice_kit.Base.{Bool, not, Option, List, [], ◌∷◌, if◌then◌else◌}
use qh_voice_kit.Base.Bytes.{Bytes, codes}
use qh_voice_kit.Button
use qh_voice_kit.Config.{DeviceConfig}
use qh_voice_kit.Device.{Platform, Device, error_view}
use qh_voice_kit.Device.Network.{start_configured_runtime, service_network_runtime}
use qh_voice_kit.Device.Provider.{service_provider, service_button}
use qh_voice_kit.Device.Recording.{service_recording}
use qh_voice_kit.Device.Runtime.{millis}
use qh_voice_kit.Receiver.{Receiver, emit_error, emit_status, read_provisioning_serial}
use qh_voice_kit.Transaction.{ConfigStore}

-- The store behind the serial line, and the rest of the globals.
pub record Firmware (E : Type 0) (W : Type 0) (S : Type 0) : Type 0 where
  pub receiver : Receiver S
  pub device : Device E W

-- The operations of the store: those of a transaction, `begin` and `activeConfig`.
pub record StoreCalls (S : Type 0) : Type 0 where
  pub transaction : ConfigStore S
  pub begin_store : S → Bool × S
  pub active_config : S → Option DeviceConfig

module _ {E W S : Type 0} (platform : Platform E W) (store : StoreCalls S)
    (sha256_hex : Bytes → Bytes) where
  -- `setup` behind the first tests.
  unfoldable pub start_device : Option DeviceConfig → Device E W → Device E W
  unfolding millis start_configured_runtime
  start_device config d =
      let (level, e) = platform.button_is_high d.world in
      let (now, d1) = millis platform (record d { world = e }) in
      start_configured_runtime platform
        (record d1 { button = Button.begin level now d1.button; active_config = config })

  -- `setup`, which shows the reason when it returns early.
  unfoldable pub setup : Firmware E W S → Firmware E W S
  unfolding start_device emit_error emit_status
  setup f =
      let d = record f.device { world = platform.delay 250 f.device.world } in
      let (buffer_ready, e) = platform.playback_begin d.world in
      let d1 = record d { world = e } in
      let (ready, s) = store.begin_store f.receiver.store in
      let r = record f.receiver { store_ready = ready; store = s } in
      let started = start_device (store.active_config s) d1 in
      if not buffer_ready
      then record {
        receiver = emit_error (codes "playback_buffer_unavailable") f.receiver;
        device = record d1 { screen = error_view (codes "playback_buffer_unavailable") };
      }
      else if not ready
      then record {
        receiver = emit_error (codes "config_store_unavailable") r;
        device = record d1 { screen = error_view (codes "config_store_unavailable") };
      }
      else record {
        receiver =
            emit_status store.transaction store.active_config sha256_hex started.voice_turn r;
        device = started;
      }

  -- `loop` behind the serial line.
  unfoldable pub services : Device E W → Device E W
  services d =
      let d1 = service_network_runtime platform d in
      let d2 = service_provider platform d1 in
      let d3 = service_button platform d2 in
      let d4 = service_recording platform d3 in record d4 { world = platform.delay 1 d4.world }

  -- `loop`, with the bytes that the serial line has; a restart does not return.
  unfoldable pub loop : Bytes → Firmware E W S → Firmware E W S
  unfolding services
  loop bytes f =
      let r =
        read_provisioning_serial store.transaction store.active_config sha256_hex
          f.device.voice_turn bytes f.receiver in
      if r.restarted
      then record f { receiver = r }
      else record { receiver = r; device = services f.device }

  -- Rounds of `loop`, the newest first.
  unfoldable pub loops : List Bytes → Firmware E W S → Firmware E W S
  unfolding loop
  loops [] f = f
  loops (bytes ∷ earlier) f = loop bytes (loops earlier f)
