-- ===== src/Receiver/Bounds.antt =====
-- esp32_voice_kit.ino: the sizes of what the serial line keeps.
use qh_voice_kit.Base.{
  ℕ, ◌-◌, ◌≤◌, Bool, false, Option, [], ◌∷◌, ◌++◌, arith, ltb, leb, ◌==◌, length, length-append,
  if_both, unless_both, elim_both,
}
use qh_voice_kit.Base.Bytes.{Bytes}
use qh_voice_kit.Config.{DeviceConfig}
use qh_voice_kit.Provisioning.{
  ProvisioningCommand, invalid, status, config, parse_provisioning_command,
}
use qh_voice_kit.Provisioning.Accepted.{IsStartable, parse_provisioning_command-IsStartable}
use qh_voice_kit.Receiver.{
  Receiver, new_receiver, equals_ignore_case, emit_error, reset_receiver, emit_status,
  apply_decoded, apply_received_config, run_command, handle_command, read_byte,
  read_provisioning_serial, is_applied,
}
use qh_voice_kit.Transaction.{ConfigStore, apply_device_config}
use qh_voice_kit.Turn.{VoiceTurnState}
use qh_voice_kit.Wire.{Decoded, done, failed, decode_device_config_wire}

-- A line of at most 160 bytes; a payload shorter than the announced size, which is at most 8192, and
-- none outside of a transfer.
abbrev pub IsBounded : {S : Type 0} → Receiver S → Type 0
IsBounded r =
    (length r.command_line ≤ 160)
    × (r.expected_payload_size ≤ 8192)
    × (length r.config_payload ≤ r.expected_payload_size - 1)

module _ {S : Type 0} (store : ConfigStore S) (active_config : S → Option DeviceConfig)
    (sha256_hex : Bytes → Bytes) (turn_state : VoiceTurnState) where
  apply_decoded-IsBounded :
      (d : Decoded DeviceConfig) (r : Receiver S)
      → length r.command_line ≤ 160
      → IsBounded (apply_decoded store active_config sha256_hex turn_state d r)
  unfolding apply_decoded emit_error reset_receiver
  apply_decoded-IsBounded (failed _) r h = (h, omega arith, omega arith)
  apply_decoded-IsBounded (done c) r h =
      unless_both IsBounded (is_applied (apply_device_config store c r.store).0)
        (λ _. (h, omega arith, omega arith)) (λ _. (h, omega arith, omega arith))

  apply_received_config-IsBounded :
      (r : Receiver S)
      → length r.command_line ≤ 160
      → IsBounded (apply_received_config store active_config sha256_hex turn_state r)
  unfolding apply_received_config emit_error reset_receiver
  apply_received_config-IsBounded r h =
      unless_both IsBounded (equals_ignore_case (sha256_hex r.config_payload) r.expected_sha256)
        (λ _. (h, omega arith, omega arith))
        (λ _. apply_decoded-IsBounded (decode_device_config_wire false r.config_payload) r h)

  run_command-IsBounded :
      (c : ProvisioningCommand) (r : Receiver S)
      → IsStartable c
      → IsBounded r
      → IsBounded (run_command store active_config sha256_hex turn_state c r)
  unfolding run_command emit_status emit_error
  run_command-IsBounded status r hc h = h
  run_command-IsBounded invalid r hc h = h
  run_command-IsBounded (config size digest) r hc h =
      unless_both IsBounded r.store_ready (λ _. h) (λ _. (h.0, hc.1, omega arith))

  read_byte-IsBounded :
      (value : ℕ) (r : Receiver S)
      → IsBounded r
      → IsBounded (read_byte store active_config sha256_hex turn_state value r)
  unfolding read_byte handle_command emit_error
  read_byte-IsBounded value r h =
      let pushed = record r { config_payload = r.config_payload ++ (value ∷ []) } in
      let grown = length-append r.config_payload (value ∷ []) in
      if_both IsBounded (ltb 0 r.expected_payload_size)
        (λ opened.
          if_both IsBounded (length pushed.config_payload == r.expected_payload_size)
            (λ _. apply_received_config-IsBounded pushed h.0)
            (λ more. (h.0, h.1, ground (arith, opened, more, h, grown))))
        (λ _.
          if_both IsBounded (value == b'\r') (λ _. h)
            (λ _.
              if_both IsBounded (value == b'\n')
                (λ _.
                  run_command-IsBounded (parse_provisioning_command r.command_line)
                    (record r { command_line = [] })
                    (parse_provisioning_command-IsStartable r.command_line) (omega arith, h.1, h.2))
                (λ _.
                  if_both IsBounded (leb 160 (length r.command_line)) (λ _. (omega arith, h.1, h.2))
                    (λ room. (
                      ground (arith, room, length-append r.command_line (value ∷ [])),
                      h.1,
                      h.2,
                    )))))

  IsBounded-read :
      (bytes : Bytes) (r : Receiver S)
      → IsBounded r
      → IsBounded (read_provisioning_serial store active_config sha256_hex turn_state bytes r)
  unfolding read_provisioning_serial
  IsBounded-read [] r h = h
  IsBounded-read (value ∷ bytes) r h =
      elim_both IsBounded r.restarted (λ _. h)
        (λ _.
          IsBounded-read bytes (read_byte store active_config sha256_hex turn_state value r)
            (read_byte-IsBounded value r h))

  -- Whatever comes over the serial line, a new receiver keeps at most 160 bytes of a command, never
  -- expects more than 8192 bytes of a payload, and holds fewer payload bytes than it expects, or
  -- none outside of a transfer.
  pub read_provisioning_serial-IsBounded :
      (ready : Bool) (s : S) (bytes : Bytes)
      → IsBounded (
          read_provisioning_serial store active_config sha256_hex turn_state bytes
            (new_receiver ready s))
  read_provisioning_serial-IsBounded ready s bytes =
      IsBounded-read bytes (new_receiver ready s) (omega arith, omega arith, omega arith)
