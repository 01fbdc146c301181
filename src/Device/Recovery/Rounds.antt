-- ===== src/Device/Recovery/Rounds.antt =====
-- esp32_voice_kit.ino, `failRuntime` and `loop`: how long an error lasts.
use mathlib.Core.Path.{subst}
use qh_voice_kit.Base.{
  some, refl, not, ◌&&◌, ◌⊎◌, if_both, ℕ, zero, suc, ◌+◌, ◌-◌, ◌*◌, ◌%◌, ◌^◌, ◌≤◌, ◌<◌, ◌≡◌, ◌≢◌,
  sym, ap, ◌∙◌, true, false, arith, leb, Bool-cases, inl, inr,
}
use qh_voice_kit.Base.Bytes.{Bytes}
use qh_voice_kit.Base.Words.{sub32}
use qh_voice_kit.Button
use qh_voice_kit.Device.{Platform, Device, runtime_retry_delay_ms}
use qh_voice_kit.Device.Loop.{StoreCalls, Firmware, services, loop}
use qh_voice_kit.Config.{DeviceConfig}
use qh_voice_kit.Receiver.{Receiver, read_provisioning_serial}
use qh_voice_kit.Device.Network.{service_network_runtime}
use qh_voice_kit.Device.Provider.{service_provider, service_button}
use qh_voice_kit.Device.Recording.{service_recording}
use qh_voice_kit.Device.Recovery.{
  network-waits, network-Reconnects, Reconnects, recording-waits, pressed_in_error,
}
use qh_voice_kit.Device.Recovery.Provider.{provider-waits}
use qh_voice_kit.Device.Runtime.{apply_turn, fail_runtime, millis, stop_audio_bus}
use qh_voice_kit.Device.Safe.{IsSafe, fail_runtime-IsSafe, stop_audio_bus-off}
use qh_voice_kit.Turn.{VoiceTurnState, VoiceTurnEvent, apply, error, unconfigured}

-- A count of milliseconds that `millis` shows modulo 2^32, that goes on with `delay`, and that no
-- call of an idle round turns back, or moves on by more than a second.
pub record Ticks {E W : Type 0} (platform : Platform E W) (clock : E → ℕ) : Type 0 where
  pub reads : (e : E) → (platform.millis e).0 ≡ clock e % 2 ^ 32
  pub after_millis :
      (e : E)
      → (clock e ≤ clock (platform.millis e).1) × (clock (platform.millis e).1 ≤ clock e + 1000)
  pub after_level :
      (e : E)
      → (clock e ≤ clock (platform.button_is_high e).1)
        × (clock (platform.button_is_high e).1 ≤ clock e + 1000)
  pub after_delay :
      (n : ℕ) (e : E)
      → (clock e + n ≤ clock (platform.delay n e))
        × (clock (platform.delay n e) ≤ clock e + n + 1000)

elapsed :
    (now start : ℕ)
    → start ≤ now
    → now < start + 2 ^ 32
    → sub32 (now % 2 ^ 32) (start % 2 ^ 32) ≡ now - start
elapsed now start l u = omega arith

leb-true : (a b : ℕ) → a ≤ b → leb a b ≡ true
leb-true a b h = ground arith

failed-error : (s : VoiceTurnState) → s ≢ unconfigured → (apply s VoiceTurnEvent.failure).0 ≡ error
unfolding apply
failed-error s h = ground arith

module _ {E W S : Type 0} (platform : Platform E W) (store : StoreCalls S)
    (sha256_hex : Bytes → Bytes) where
  -- The receiver behind the bytes that a round of `loop` finds on the serial line.
  abbrev pub heard : Bytes → Firmware E W S → Receiver S
  heard bytes f =
      read_provisioning_serial store.transaction store.active_config sha256_hex f.device.voice_turn
        bytes f.receiver

  -- So many rounds of `loop`, with the bytes that each finds on the serial line.
  unfoldable pub rounds : (ℕ → Bytes) → ℕ → Firmware E W S → Firmware E W S
  rounds serial zero f = f
  rounds serial (suc n) f =
      rounds (λ i. serial (suc i)) n (loop platform store sha256_hex (serial 0) f)

  -- In a round that starts so, the serial line restarts the device, or the network service connects
  -- again.
  abbrev pub Leaves : DeviceConfig → Bytes → Firmware E W S → Type 0
  Leaves c bytes f =
      ((heard bytes f).restarted ≡ true)
      ⊎ (((heard bytes f).restarted ≡ false)
          × Reconnects platform c f.device (service_network_runtime platform f.device))

  abbrev round : Device E W → Device E W
  round = services platform store sha256_hex

  goes_on :
      (bytes : Bytes) (f : Firmware E W S)
      → (heard bytes f).restarted ≡ false
      → (loop platform store sha256_hex bytes f).device ≡ round f.device
  unfolding loop
  goes_on bytes f h =
      if_both (λ (g : Firmware E W S). g.device ≡ round f.device) (heard bytes f).restarted
        (λ e. absurd (cc (e, h))) (λ _. refl)

  -- The state of the platform behind a round in an error.
  abbrev idle_round : E → E
  idle_round e =
      platform.delay 1 (platform.millis (platform.button_is_high (platform.millis e).1).1).1

  -- What a round in an error keeps.
  record Waited (d e : Device E W) : Type 0 where
    still : e.voice_turn ≡ error
    since : e.runtime_error_started_ms ≡ d.runtime_error_started_ms
    passed : e.world ≡ idle_round d.world
    configured : e.active_config ≡ d.active_config
    safe : IsSafe e

  round-Waited :
      (d : Device E W)
      → d.voice_turn ≡ error
      → IsSafe d
      → leb runtime_retry_delay_ms (sub32 (platform.millis d.world).0 d.runtime_error_started_ms)
        ≡ false
      → Waited d (round d)
  unfolding services millis
  round-Waited d h s w =
      let m = (millis platform d).1 in
      let (level, e) = platform.button_is_high m.world in
      let (now, world) = platform.millis e in
      let b = record m { world = world; button = (Button.update level now m.button).1 } in
      let finish = λ (x : Device E W). record x { world = platform.delay 1 x.world } in
      let eq : round d ≡ finish b =
        ap
          (λ (x : Device E W).
            finish
              (service_recording platform (service_button platform (service_provider platform x))))
          (network-waits platform d h w)
        ∙ ap (λ (x : Device E W). finish (service_recording platform (service_button platform x)))
            (provider-waits platform m h (record { safe = s.safe }))
        ∙ ap (λ (x : Device E W). finish (service_recording platform x))
            (pressed_in_error platform m h)
        ∙ ap finish (recording-waits platform b h) in
      record {
        still = ap (λ (x : Device E W). x.voice_turn) eq ∙ h;
        since = ap (λ (x : Device E W). x.runtime_error_started_ms) eq;
        passed = ap (λ (x : Device E W). x.world) eq;
        configured = ap (λ (x : Device E W). x.active_config) eq;
        safe = subst IsSafe (sym eq) (record { safe = s.safe });
      }

  waits_on :
      (bytes : Bytes) (f : Firmware E W S)
      → (heard bytes f).restarted ≡ false
      → f.device.voice_turn ≡ error
      → IsSafe f.device
      → leb runtime_retry_delay_ms
          (sub32 (platform.millis f.device.world).0 f.device.runtime_error_started_ms)
        ≡ false
      → Waited f.device (loop platform store sha256_hex bytes f).device
  waits_on bytes f run h s w =
      subst (Waited f.device) (sym (goes_on bytes f run)) (round-Waited f.device h s w)

  stop_audio_bus-config :
      (d : Device E W) → (stop_audio_bus platform d).active_config ≡ d.active_config
  unfolding stop_audio_bus
  stop_audio_bus-config d =
      if_both (λ (e : Device E W). e.active_config ≡ d.active_config)
        (not d.microphone_running && not d.speaker_running) (λ _. refl) (λ _. refl)

  module _ (clock : E → ℕ) (ticks : Ticks platform clock) where
    idle_round-clock :
        (e : E) → (clock e + 1 ≤ clock (idle_round e)) × (clock (idle_round e) ≤ clock e + 4001)
    idle_round-clock e =
        let e1 = (platform.millis e).1 in
        let e2 = (platform.button_is_high e1).1 in
        let e3 = (platform.millis e2).1 in
        let a = ticks.after_millis e in
        let b = ticks.after_level e1 in
        let c = ticks.after_millis e2 in
        let f = ticks.after_delay 1 e3 in (omega arith, omega arith)

    -- Whether the delay is over, in the time since the start of the error.
    due_iff :
        (d : Device E W) (start : ℕ)
        → d.runtime_error_started_ms ≡ start % 2 ^ 32
        → start ≤ clock d.world
        → clock d.world < start + 2 ^ 32
        → leb runtime_retry_delay_ms (sub32 (platform.millis d.world).0 d.runtime_error_started_ms)
          ≡ leb runtime_retry_delay_ms (clock d.world - start)
    due_iff d start h l u =
        ap (leb runtime_retry_delay_ms)
          (rw (ticks.reads d.world, h) (elapsed (clock d.world) start l u))

    leaves :
        (n start : ℕ) (c : DeviceConfig) (serial : ℕ → Bytes) (f : Firmware E W S)
        → f.device.active_config ≡ some c
        → f.device.voice_turn ≡ error
        → IsSafe f.device
        → f.device.runtime_error_started_ms ≡ start % 2 ^ 32
        → start ≤ clock f.device.world
        → clock f.device.world + n * 4001 < start + 2 ^ 32
        → 5000 + start ≤ clock f.device.world + n
        → (k : ℕ) × (k ≤ n) × Leaves c (serial k) (rounds serial k f)
    unfolding rounds
    leaves zero start c serial f configured h s since l u k =
        elim (Bool-cases (heard (serial 0) f).restarted) [
          | inl over ↦ (0, omega arith, inl over)
          | inr run ↦ (
            0,
            omega arith,
            inr (
              run,
              network-Reconnects platform c f.device configured h (
                  due_iff f.device start since l (omega arith)
                  ∙ leb-true 5000 (clock f.device.world - start) (omega arith)),
            ),
          )
        ]
    leaves (suc n) start c serial f configured h s since l u k =
        elim (Bool-cases (heard (serial 0) f).restarted) [
          | inl over ↦ (0, omega arith, inl over)
          | inr run ↦
              elim (Bool-cases (
                leb runtime_retry_delay_ms
                  (sub32 (platform.millis f.device.world).0 f.device.runtime_error_started_ms))) [
                    | inl due ↦ (
                      0,
                      omega arith,
                      inr (run, network-Reconnects platform c f.device configured h due),
                    )
                    | inr w ↦
                        let next = loop platform store sha256_hex (serial 0) f in
                        let x = waits_on (serial 0) f run h s w in
                        let t = idle_round-clock f.device.world in
                        let passed = ap clock x.passed in
                        let r =
                          leaves n start c (λ i. serial (suc i)) next (x.configured ∙ configured)
                            x.still x.safe (x.since ∙ since) (omega arith) (omega arith)
                            (omega arith) in
                        (suc r.0, omega (arith, r.1), r.2)
                  ]
        ]

    -- With a clock that each `delay` moves on and that no call of a round in an error turns back or
    -- moves on by more than a second, no error lasts. After any failure of a device that is not
    -- unconfigured and has a configuration, let rounds of `loop` follow, with any bytes on the
    -- serial line in each. Then there is one of the first 5001 rounds in which the serial line
    -- restarts the device, or the network service goes to the state `connecting_wifi` and tells the
    -- radio to join the network of that configuration.
    pub fail_runtime-recovers :
        (code : Bytes) (c : DeviceConfig) (serial : ℕ → Bytes) (f : Firmware E W S)
        → f.device.voice_turn ≢ unconfigured
        → f.device.active_config ≡ some c
        → (k : ℕ) × (k ≤ 5000)
          × Leaves c
              (serial k)
              (rounds serial k (record f { device = fail_runtime platform code f.device }))
    unfolding fail_runtime apply_turn millis
    fail_runtime-recovers code c serial f h configured =
        let d = f.device in
        let off = stop_audio_bus-off platform d in
        let w = (stop_audio_bus platform d).world in
        let a = ticks.after_millis w in
        leaves 5000 (clock w) c serial (record f { device = fail_runtime platform code d })
          (stop_audio_bus-config d ∙ configured)
          (ap (λ (s : VoiceTurnState). (apply s VoiceTurnEvent.failure).0) off.2
            ∙ failed-error d.voice_turn h)
          (fail_runtime-IsSafe platform code d) (ticks.reads w) a.0 (omega (arith, a.1))
          (omega (arith, a.0))
