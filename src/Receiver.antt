-- ===== src/Receiver.antt =====
-- firmware/esp32_voice_kit/esp32_voice_kit.ino, the serial line: `emitError`, `emitStatus`,
-- `resetReceiver`, `applyReceivedConfig`, `handleCommand` and `readProvisioningSerial`. The digest of
-- `SHA256Builder` and the store are parameters. Children: the bounds of what is kept, the
-- lines and payloads among what was read, what may change the store, how a line and a payload are
-- read, and a whole transfer.
pub mod Bounds
pub mod Heard
pub mod Changes
pub mod Reading
pub mod Transfer
use qh_voice_kit.Base.{
  ℕ, Bool, true, false, not, ◌||◌, Option, none, some, [], ◌∷◌, ◌++◌, ltb, leb, ◌==◌, if◌then◌else◌,
  length,
}
use qh_voice_kit.Base.Bytes.{Bytes, codes, bytes_eq}
use qh_voice_kit.Config.{DeviceConfig}
use qh_voice_kit.Provisioning.{
  ProvisioningCommand, invalid, status, config, lower_case, parse_provisioning_command,
}
use qh_voice_kit.Transaction.{ConfigStore, ConfigApplyResult, applied, apply_device_config}
use qh_voice_kit.Turn.{VoiceTurnState, voice_turn_state_name}
use qh_voice_kit.Wire.{Decoded, done, failed, decode_device_config_wire}

-- The globals of the serial line, what was written to it, and whether `ESP.restart` was called.
pub record Receiver (S : Type 0) : Type 0 where
  pub command_line : Bytes
  pub config_payload : Bytes
  pub expected_payload_size : ℕ
  pub expected_sha256 : Bytes
  pub store_ready : Bool
  pub store : S
  pub output : Bytes
  pub restarted : Bool

abbrev pub new_receiver : {S : Type 0} → Bool → S → Receiver S
new_receiver ready store = record {
  command_line = [];
  config_payload = [];
  expected_payload_size = 0;
  expected_sha256 = [];
  store_ready = ready;
  store = store;
  output = [];
  restarted = false;
}

abbrev pub print : {S : Type 0} → Bytes → Receiver S → Receiver S
print text r = record r { output = r.output ++ text }

abbrev pub error_line : Bytes → Bytes
error_line code =
    codes "{\"protocol\":\"qh-voice-provision/1\",\"status\":\"blocked\",\"code\":\""
    ++ (code ++ codes "\"}\n")

unfoldable pub emit_error : {S : Type 0} → Bytes → Receiver S → Receiver S
emit_error code r = print (error_line code) r

abbrev pub is_configured : Option DeviceConfig → Bool
is_configured none = false
is_configured (some _) = true

unfoldable pub status_line : Bool → VoiceTurnState → Bytes
status_line configured state =
    codes "{\"protocol\":\"qh-voice-provision/1\",\"status\":\"ready\",\"configured\":"
    ++ ((if configured then codes "true" else codes "false")
        ++ (codes ",\"runtimeState\":\""
            ++ (voice_turn_state_name state
                ++ codes "\",\"firmware\":\"qh-voice-kit-realtime-dev\"}\n")))

unfoldable pub reset_receiver : {S : Type 0} → Receiver S → Receiver S
reset_receiver r = record r { config_payload = []; expected_payload_size = 0; expected_sha256 = [] }

-- `String::equalsIgnoreCase`.
abbrev pub equals_ignore_case : Bytes → Bytes → Bool
equals_ignore_case a b = bytes_eq (lower_case a) (lower_case b)

abbrev pub is_applied : ConfigApplyResult → Bool
is_applied applied = true
is_applied _ = false

abbrev pub configured_line : Bytes
configured_line =
    codes
      "{\"protocol\":\"qh-voice-provision/1\",\"status\":\"configured\",\"rebootRequired\":false,\"restarting\":true}\r\n"

abbrev pub send_payload_line : Bytes
send_payload_line = codes "{\"protocol\":\"qh-voice-provision/1\",\"status\":\"send_payload\"}\r\n"

module _ {S : Type 0} (store : ConfigStore S) (active_config : S → Option DeviceConfig)
    (sha256_hex : Bytes → Bytes) (turn_state : VoiceTurnState) where
  unfoldable pub emit_status : Receiver S → Receiver S
  unfolding status_line
  emit_status r =
      let active = if r.store_ready then active_config r.store else none in
      print (status_line (is_configured active) turn_state) r

  -- Behind the decoding of the payload.
  unfoldable pub apply_decoded : Decoded DeviceConfig → Receiver S → Receiver S
  unfolding emit_error reset_receiver
  apply_decoded (failed _) r = reset_receiver (emit_error (codes "invalid_config") r)
  apply_decoded (done c) r =
      let (result, after) = apply_device_config store c r.store in
      let reset = reset_receiver (record r { store = after }) in
      if not (is_applied result)
      then emit_error (codes "config_storage_failed") reset
      else record (print configured_line reset) { restarted = true }

  unfoldable pub apply_received_config : Receiver S → Receiver S
  unfolding apply_decoded
  apply_received_config r =
      if not (equals_ignore_case (sha256_hex r.config_payload) r.expected_sha256)
      then reset_receiver (emit_error (codes "checksum_mismatch") r)
      else apply_decoded (decode_device_config_wire false r.config_payload) r

  -- Behind the parse of the line, which has been cleared.
  unfoldable pub run_command : ProvisioningCommand → Receiver S → Receiver S
  unfolding emit_status emit_error
  run_command status r = emit_status r
  run_command invalid r = emit_error (codes "invalid_command") r
  run_command (config payload_size sha256) r =
      if not r.store_ready
      then emit_error (codes "invalid_command") r
      else print send_payload_line (record r {
        expected_payload_size = payload_size;
        expected_sha256 = sha256;
        config_payload = [];
      })

  unfoldable pub handle_command : Receiver S → Receiver S
  unfolding run_command
  handle_command r =
      run_command (parse_provisioning_command r.command_line) (record r { command_line = [] })

  -- One round of the loop of `readProvisioningSerial`.
  unfoldable pub read_byte : ℕ → Receiver S → Receiver S
  unfolding apply_received_config handle_command emit_error
  read_byte value r =
      if ltb 0 r.expected_payload_size
      then (let pushed = record r { config_payload = r.config_payload ++ (value ∷ []) } in
          if length pushed.config_payload == r.expected_payload_size
          then apply_received_config pushed
          else pushed)
      else if value == b'\r'
      then r
      else if value == b'\n'
      then handle_command r
      else if leb 160 (length r.command_line)
      then emit_error (codes "command_too_long") (record r { command_line = [] })
      else record r { command_line = r.command_line ++ (value ∷ []) }

  -- The bytes that are available; `ESP.restart` does not return.
  unfoldable pub read_provisioning_serial : Bytes → Receiver S → Receiver S
  unfolding read_byte
  read_provisioning_serial [] r = r
  read_provisioning_serial (value ∷ bytes) r = elim r.restarted [
    | true ↦ r
    | false ↦ read_provisioning_serial bytes (read_byte value r)
  ]
