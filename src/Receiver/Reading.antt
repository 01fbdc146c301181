-- ===== src/Receiver/Reading.antt =====
-- esp32_voice_kit.ino: the bytes that the receiver reads, as a command line and as a payload.
use mathlib.Core.List.{append-nil, append_assoc}
use qh_voice_kit.Base.{
  ℕ, ◌+◌, ◌≤◌, ◌<◌, ◌≡◌, refl, sym, ap, ◌∙◌, Bool, true, false, not, ◌&&◌, Option, [], ◌∷◌, ◌++◌,
  arith, ltb, leb, ◌==◌, length, length-append, All, elim_both, Bool-cases, inl, inr,
}
use qh_voice_kit.Base.Bytes.{Bytes}
use qh_voice_kit.Config.{DeviceConfig}
use qh_voice_kit.Provisioning.{config, parse_provisioning_command}
use qh_voice_kit.Receiver.{
  Receiver, apply_received_config, run_command, handle_command, read_byte, read_provisioning_serial,
  send_payload_line,
}
use qh_voice_kit.Transaction.{ConfigStore}
use qh_voice_kit.Turn.{VoiceTurnState}

-- A receiver outside of a transfer, and one inside.
abbrev pub waiting : {S : Type 0} → Bytes → S → Bytes → Receiver S
waiting command_line store output = record {
  command_line = command_line;
  config_payload = [];
  expected_payload_size = 0;
  expected_sha256 = [];
  store_ready = true;
  store = store;
  output = output;
  restarted = false;
}

abbrev pub receiving : {S : Type 0} → ℕ → Bytes → Bytes → S → Bytes → Receiver S
receiving size digest payload store output = record {
  command_line = [];
  config_payload = payload;
  expected_payload_size = size;
  expected_sha256 = digest;
  store_ready = true;
  store = store;
  output = output;
  restarted = false;
}

-- Neither of the two characters that end a line.
abbrev pub is_text : ℕ → Bool
is_text c = not (c == b'\r') && not (c == b'\n')

module _ {S : Type 0} (store : ConfigStore S) (active_config : S → Option DeviceConfig)
    (sha256_hex : Bytes → Bytes) (turn_state : VoiceTurnState) where
  abbrev pub read : Bytes → Receiver S → Receiver S
  read bytes r = read_provisioning_serial store active_config sha256_hex turn_state bytes r

  read_stopped : (a : Bytes) (r : Receiver S) → r.restarted ≡ true → read a r ≡ r
  unfolding read_provisioning_serial
  read_stopped [] r e = refl
  read_stopped (x ∷ a) r e =
      elim_both (λ (t : Receiver S). t ≡ r) r.restarted (λ _. refl) (λ f. absurd (cc (e, f)))

  pub read_running :
      (x : ℕ) (a : Bytes) (r : Receiver S)
      → r.restarted ≡ false
      → read (x ∷ a) r ≡ read a (read_byte store active_config sha256_hex turn_state x r)
  unfolding read_provisioning_serial
  read_running x a r e =
      elim_both
        (λ (t : Receiver S). t ≡ read a (read_byte store active_config sha256_hex turn_state x r))
        r.restarted (λ f. absurd (cc (e, f))) (λ _. refl)

  pub read-append : (a b : Bytes) (r : Receiver S) → read (a ++ b) r ≡ read b (read a r)
  unfolding read_provisioning_serial
  read-append [] b r = refl
  read-append (x ∷ a) b r = elim (Bool-cases r.restarted) [
    | inl e ↦
        read_stopped (x ∷ (a ++ b)) r e
        ∙ sym (read_stopped b r e)
        ∙ sym (ap (λ (t : Receiver S). read b t) (read_stopped (x ∷ a) r e))
    | inr e ↦
        read_running x (a ++ b) r e
        ∙ read-append a b (read_byte store active_config sha256_hex turn_state x r)
        ∙ sym (ap (λ (t : Receiver S). read b t) (read_running x a r e))
  ]

  pub read_line :
      (line command output : Bytes) (s : S)
      → All (λ c. is_text c ≡ true) line
      → length command + length line ≤ 160
      → read line (waiting command s output) ≡ waiting (command ++ line) s output
  unfolding read_provisioning_serial read_byte
  read_line [] command output s h fits =
      ap (λ (c : Bytes). waiting c s output) (sym (append-nil command))
  read_line (c ∷ line) command output s (hc, h) fits =
      let not_return : (c == b'\r') ≡ false = ground (arith, hc) in
      let not_newline : (c == b'\n') ≡ false = ground (arith, hc) in
      let room : leb 160 (length command) ≡ false = ground (arith, fits) in
      rw (not_return, not_newline, room)
        (read_line line (command ++ (c ∷ [])) output s h
            (ground (arith, fits, length-append command (c ∷ [])))
          ∙ ap (λ (t : Bytes). waiting t s output) (append_assoc command (c ∷ []) line))

  -- One more byte of a payload, before the last and at the last.
  push_byte :
      (size x : ℕ) (digest got output : Bytes) (s : S)
      → length got + 1 < size
      → read_byte store active_config sha256_hex turn_state x (receiving size digest got s output)
        ≡ receiving size digest (got ++ (x ∷ [])) s output
  unfolding read_byte
  push_byte size x digest got output s h =
      let opened : ltb 0 size ≡ true = ground arith in
      let more : (length (got ++ (x ∷ [])) == size) ≡ false =
        ground (arith, length-append got (x ∷ [])) in
      rw (opened, more) refl

  push_last :
      (size x : ℕ) (digest got output : Bytes) (s : S)
      → length got + 1 ≡ size
      → read_byte store active_config sha256_hex turn_state x (receiving size digest got s output)
        ≡ apply_received_config store active_config sha256_hex turn_state
            (receiving size digest (got ++ (x ∷ [])) s output)
  unfolding read_byte
  push_last size x digest got output s h =
      let opened : ltb 0 size ≡ true = ground arith in
      let last : (length (got ++ (x ∷ [])) == size) ≡ true =
        ground (arith, length-append got (x ∷ [])) in
      rw (opened, last) refl

  pub read_payload :
      (size : ℕ) (payload got digest output : Bytes) (s : S)
      → 0 < length payload
      → length got + length payload ≡ size
      → read payload (receiving size digest got s output)
        ≡ apply_received_config store active_config sha256_hex turn_state
            (receiving size digest (got ++ payload) s output)
  unfolding read_provisioning_serial
  read_payload size [] got digest output s h e = absurd (omega arith)
  read_payload size (x ∷ []) got digest output s h e =
      push_last size x digest got output s (omega arith)
  read_payload size (x ∷ y ∷ payload) got digest output s h e =
      ap (λ (t : Receiver S). read (y ∷ payload) t)
        (push_byte size x digest got output s (omega arith))
      ∙ read_payload size (y ∷ payload) (got ++ (x ∷ [])) digest output s (omega arith)
          (omega (arith, length-append got (x ∷ [])))
      ∙ ap
          (λ (t : Bytes).
            apply_received_config store active_config sha256_hex turn_state
              (receiving size digest t s output))
          (append_assoc got (x ∷ []) (y ∷ payload))

  pub read_newline :
      (line digest output : Bytes) (size : ℕ) (s : S)
      → parse_provisioning_command line ≡ config size digest
      → read_byte store active_config sha256_hex turn_state b'\n' (waiting line s output)
        ≡ receiving size digest [] s (output ++ send_payload_line)
  unfolding read_byte handle_command run_command
  read_newline line digest output size s e = rw e refl
