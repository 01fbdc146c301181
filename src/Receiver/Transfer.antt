-- ===== src/Receiver/Transfer.antt =====
-- esp32_voice_kit.ino: a whole transfer, from the command line to the configuration in the store.
use qh_voice_kit.Base.{
  ℕ, ◌≤◌, ◌<◌, ◌≡◌, refl, sym, ap, ◌∙◌, true, false, Option, [], ◌∷◌, ◌++◌, arith, length, All,
  unless_both,
}
use qh_voice_kit.Base.Bytes.{Bytes}
use qh_voice_kit.Config.{DeviceConfig}
use qh_voice_kit.Config.Validate.{IsValid}
use qh_voice_kit.Provisioning.{config, parse_provisioning_command}
use qh_voice_kit.Receiver.{
  Receiver, new_receiver, reset_receiver, equals_ignore_case, emit_error, apply_decoded,
  apply_received_config, read_provisioning_serial, is_applied, send_payload_line,
}
use qh_voice_kit.Transaction.{ConfigStore, apply_device_config}
use qh_voice_kit.Turn.{VoiceTurnState}
use qh_voice_kit.Provisioning.Accepted.{IsStartable, parse_provisioning_command-IsStartable}
use qh_voice_kit.Wire.RoundTrip.{decode-encode_device_config_wire}
use qh_voice_kit.Wire.{
  encode_device_config_wire, maximum_wire_bytes, done, decode_device_config_wire,
}
use qh_voice_kit.Receiver.Reading.{
  waiting, receiving, is_text, read, read-append, read_line, read_payload, read_newline,
  read_running,
}

announced :
    (line digest : Bytes) (size : ℕ)
    → parse_provisioning_command line ≡ config size digest
    → 0 < size
announced line digest size e =
    let startable : IsStartable (config size digest) =
      rw e at (parse_provisioning_command-IsStartable line) in
    startable.0

module _ {S : Type 0} (store : ConfigStore S) (active_config : S → Option DeviceConfig)
    (sha256_hex : Bytes → Bytes) (turn_state : VoiceTurnState) where
  checked_payload :
      (r : Receiver S)
      → equals_ignore_case (sha256_hex r.config_payload) r.expected_sha256 ≡ true
      → apply_received_config store active_config sha256_hex turn_state r
        ≡ apply_decoded store active_config sha256_hex turn_state
            (decode_device_config_wire false r.config_payload)
            r
  unfolding apply_received_config
  checked_payload r same =
      unless_both
        (λ (t : Receiver S).
          t
          ≡ apply_decoded store active_config sha256_hex turn_state
              (decode_device_config_wire false r.config_payload) r)
        (equals_ignore_case (sha256_hex r.config_payload) r.expected_sha256)
        (λ f. absurd (cc (same, f))) (λ _. refl)

  -- The store and the restart behind the application of a configuration to a store.
  abbrev pub Applies : DeviceConfig → S → Receiver S → Type 0
  Applies c s r =
      (r.store ≡ (apply_device_config store c s).1)
      × (r.restarted ≡ is_applied (apply_device_config store c s).0)

  apply_decoded-Applies :
      (c : DeviceConfig) (r : Receiver S)
      → r.restarted ≡ false
      → Applies c r.store (apply_decoded store active_config sha256_hex turn_state (done c) r)
  unfolding apply_decoded emit_error reset_receiver
  apply_decoded-Applies c r run =
      unless_both (Applies c r.store) (is_applied (apply_device_config store c r.store).0)
        (λ e. (refl, run ∙ sym e)) (λ e. (refl, sym e))

  -- A whole transfer. A receiver whose store is ready reads a command line of at most 160 bytes
  -- without an end of line, then the end of the line, then the encoding of a valid configuration, which the line
  -- announces with its size, at most 8192 bytes, and with its digest. Then the configuration is
  -- applied to the store, and the device restarts exactly when that succeeds.
  pub read_provisioning_serial-Applies :
      (c : DeviceConfig) (line digest : Bytes) (s : S)
      → IsValid c
      → length (encode_device_config_wire c) ≤ maximum_wire_bytes
      → All (λ b. is_text b ≡ true) line
      → length line ≤ 160
      → parse_provisioning_command line ≡ config (length (encode_device_config_wire c)) digest
      → equals_ignore_case (sha256_hex (encode_device_config_wire c)) digest ≡ true
      → Applies c s (
          read_provisioning_serial store active_config sha256_hex turn_state
            (line ++ (b'\n' ∷ encode_device_config_wire c))
            (new_receiver true s))
  read_provisioning_serial-Applies c line digest s v fits text short parsed same =
      let payload = encode_device_config_wire c in
      let size = length payload in
      let r = receiving size digest payload s send_payload_line in
      let some_bytes : 0 < size = announced line digest size parsed in
      let reached : read store active_config sha256_hex turn_state (line ++ (b'\n' ∷ payload))
            (new_receiver true s)
          ≡ apply_decoded store active_config sha256_hex turn_state (done c) r =
        read-append store active_config sha256_hex turn_state line (b'\n' ∷ payload)
          (new_receiver true s)
        ∙ ap
            (λ (t : Receiver S). read store active_config sha256_hex turn_state (b'\n' ∷ payload) t)
            (read_line store active_config sha256_hex turn_state line [] [] s text (omega arith))
        ∙ read_running store active_config sha256_hex turn_state b'\n' payload (waiting line s [])
            refl
        ∙ ap (λ (t : Receiver S). read store active_config sha256_hex turn_state payload t)
            (read_newline store active_config sha256_hex turn_state line digest [] size s parsed)
        ∙ read_payload store active_config sha256_hex turn_state size payload [] digest
            send_payload_line s some_bytes (omega arith)
        ∙ checked_payload r same
        ∙ ap (λ d. apply_decoded store active_config sha256_hex turn_state d r)
            (decode-encode_device_config_wire c v fits) in
      rw reached (apply_decoded-Applies c r refl)
