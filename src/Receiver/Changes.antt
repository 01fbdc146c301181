-- ===== src/Receiver/Changes.antt =====
-- esp32_voice_kit.ino: what may change the store.
use mathlib.Core.Path.{subst}
use mathlib.Core.List.{append_assoc, append-nil}
use qh_voice_kit.Base.{
  ℕ, ◌<◌, ◌≡◌, refl, sym, true, false, Option, [], ◌∷◌, ◌++◌, arith, ltb, leb, ◌==◌, ==_iff, length,
  if_both, unless_both, elim_both,
}
use qh_voice_kit.Base.Bytes.{Bytes}
use qh_voice_kit.Config.{DeviceConfig}
use qh_voice_kit.Provisioning.{
  ProvisioningCommand, invalid, status, config, parse_provisioning_command,
}
use qh_voice_kit.Receiver.{
  Receiver, equals_ignore_case, emit_error, reset_receiver, emit_status, apply_decoded,
  apply_received_config, run_command, handle_command, read_byte, read_provisioning_serial,
  is_applied,
}
use qh_voice_kit.Transaction.{ConfigStore, apply_device_config}
use qh_voice_kit.Turn.{VoiceTurnState}
use qh_voice_kit.Wire.{Decoded, done, failed, decode_device_config_wire}
use qh_voice_kit.Receiver.Heard.{
  kept, Sent, EndsLine, EndsPayload, Sent-append, new_line, line_more, line_ended, payload_more,
  EndsPayload-Sent,
}

-- The store after applying any number of configurations, each decoded from a payload that was sent
-- and has the digest that was announced for it, up to the case of its letters.
pub data Applied {S : Type 0} (store : ConfigStore S) (sha256_hex : Bytes → Bytes) (from : S)
    (seen : Bytes) : S → Type 0 where
  same : Applied store sha256_hex from seen from
  more :
      {earlier : S} (payload digest : Bytes) (c : DeviceConfig)
      → Applied store sha256_hex from seen earlier
      → Sent seen payload digest
      → equals_ignore_case (sha256_hex payload) digest ≡ true
      → decode_device_config_wire false payload ≡ done c
      → Applied store sha256_hex from seen (apply_device_config store c earlier).1

ltb-lt : {n : ℕ} → ltb 0 n ≡ true → 0 < n
ltb-lt h = ground arith

not_ltb : {n : ℕ} → ltb 0 n ≡ false → n ≡ 0
not_ltb h = ground arith

Applied-append :
    {S : Type 0} (store : ConfigStore S) (sha256_hex : Bytes → Bytes) (from : S) (seen read : Bytes)
    (s : S)
    → Applied store sha256_hex from seen s
    → Applied store sha256_hex from (seen ++ read) s
Applied-append store sha256_hex from seen read s same = same
Applied-append store sha256_hex from seen read s
      (more payload digest c h sent same_digest decoded) =
    more payload digest c (Applied-append store sha256_hex from seen read _ h)
      (Sent-append seen payload digest read sent) same_digest decoded

module _ {S : Type 0} (store : ConfigStore S) (active_config : S → Option DeviceConfig)
    (sha256_hex : Bytes → Bytes) (turn_state : VoiceTurnState) (from : S) where
  -- A receiver that has read the bytes since its store was `from`: what has become of the store,
  -- and what the receiver keeps of a line or of a payload that has not ended.
  pub record Follows (seen : Bytes) (r : Receiver S) : Type 0 where
    pub applied : Applied store sha256_hex from seen r.store
    pub in_line : r.restarted ≡ false → r.expected_payload_size ≡ 0 → EndsLine seen r.command_line
    pub in_payload :
        r.restarted ≡ false
        → 0 < r.expected_payload_size
        → EndsPayload seen r.config_payload r.expected_payload_size r.expected_sha256
          × (r.command_line ≡ [])

  -- Between two transfers.
  waits :
      (seen : Bytes) (r : Receiver S)
      → Applied store sha256_hex from seen r.store
      → EndsLine seen r.command_line
      → r.expected_payload_size ≡ 0
      → Follows seen r
  waits seen r h l e = record {
    applied = h;
    in_line = λ _ _. l;
    in_payload = λ _ k. absurd (omega arith);
  }

  apply_decoded-Follows :
      (d : Decoded DeviceConfig) (seen : Bytes) (r : Receiver S)
      → Applied store sha256_hex from seen r.store
      → r.command_line ≡ []
      → Sent seen r.config_payload r.expected_sha256
      → equals_ignore_case (sha256_hex r.config_payload) r.expected_sha256 ≡ true
      → decode_device_config_wire false r.config_payload ≡ d
      → Follows seen (apply_decoded store active_config sha256_hex turn_state d r)
  unfolding apply_decoded emit_error reset_receiver
  apply_decoded-Follows (failed _) seen r h e sent digest decoded =
      waits seen _ h (rw e (new_line seen)) refl
  apply_decoded-Follows (done c) seen r h e sent digest decoded =
      let next = more r.config_payload r.expected_sha256 c h sent digest decoded in
      unless_both (Follows seen) (is_applied (apply_device_config store c r.store).0)
        (λ _. waits seen _ next (rw e (new_line seen)) refl)
        (λ _. waits seen _ next (rw e (new_line seen)) refl)

  apply_received_config-Follows :
      (seen : Bytes) (r : Receiver S)
      → Applied store sha256_hex from seen r.store
      → r.command_line ≡ []
      → Sent seen r.config_payload r.expected_sha256
      → Follows seen (apply_received_config store active_config sha256_hex turn_state r)
  unfolding apply_received_config emit_error reset_receiver
  apply_received_config-Follows seen r h e sent =
      unless_both (Follows seen)
        (equals_ignore_case (sha256_hex r.config_payload) r.expected_sha256)
        (λ _. waits seen _ h (rw e (new_line seen)) refl)
        (λ digest.
          apply_decoded-Follows (decode_device_config_wire false r.config_payload) seen r h e sent
            digest refl)

  -- Behind the end of a line, which has been cleared.
  run_command-Follows :
      (c : ProvisioningCommand) (seen line : Bytes) (r : Receiver S)
      → Applied store sha256_hex from (seen ++ (b'\n' ∷ [])) r.store
      → EndsLine seen line
      → parse_provisioning_command line ≡ c
      → r.command_line ≡ []
      → r.expected_payload_size ≡ 0
      → Follows (seen ++ (b'\n' ∷ [])) (run_command store active_config sha256_hex turn_state c r)
  unfolding run_command emit_status emit_error
  run_command-Follows status seen line r h l parsed e z = waits _ _ h (rw e (new_line _)) z
  run_command-Follows invalid seen line r h l parsed e z = waits _ _ h (rw e (new_line _)) z
  run_command-Follows (config size digest) seen line r h l parsed e z =
      unless_both (Follows (seen ++ (b'\n' ∷ []))) r.store_ready
        (λ _. waits _ _ h (rw e (new_line _)) z)
        (λ _. record {
          applied = h;
          in_line = λ _ _. rw e (new_line _);
          in_payload = λ _ _. (line_ended seen line size digest l parsed, e);
        })

  read_byte-Follows :
      (value : ℕ) (seen : Bytes) (r : Receiver S)
      → r.restarted ≡ false
      → Follows seen r
      → Follows (seen ++ (value ∷ [])) (read_byte store active_config sha256_hex turn_state value r)
  unfolding read_byte handle_command emit_error kept
  read_byte-Follows value seen r run h =
      let next = seen ++ (value ∷ []) in
      let P = Follows next in
      let pushed = record r { config_payload = r.config_payload ++ (value ∷ []) } in
      let applied = Applied-append store sha256_hex from seen (value ∷ []) r.store h.applied in
      if_both P (ltb 0 r.expected_payload_size)
        (λ k.
          let (p, e) = h.in_payload run (ltb-lt k) in
          let p2 =
            payload_more seen r.config_payload r.expected_payload_size r.expected_sha256 value p in
          if_both P (length pushed.config_payload == r.expected_payload_size)
            (λ whole. apply_received_config-Follows next pushed applied e (
              EndsPayload-Sent next pushed.config_payload r.expected_payload_size r.expected_sha256
                p2 ((==_iff (length pushed.config_payload) r.expected_payload_size).0 whole)))
            (λ _. record {
              applied = applied;
              in_line = λ _ z. absurd (ground (arith, k, z));
              in_payload = λ _ _. (p2, e);
            }))
        (λ k.
          let z = not_ltb k in
          let l = h.in_line run z in
          let l2 = line_more seen r.command_line value l in
          if_both P (value == b'\r')
            (λ c. waits next _ applied (rw (append-nil r.command_line) at (rw c at l2)) z)
            (λ c.
              if_both P (value == b'\n')
                (λ n.
                  let newline : value ≡ b'\n' = (==_iff value b'\n').0 n in
                  subst
                    (λ v. Follows (seen ++ (v ∷ [])) (
                      run_command store active_config sha256_hex turn_state
                        (parse_provisioning_command r.command_line)
                        (record r { command_line = [] })))
                    (sym newline)
                    (run_command-Follows (parse_provisioning_command r.command_line) seen
                      r.command_line (record r { command_line = [] }) (rw newline at applied) l refl
                      refl z))
                (λ _.
                  if_both P (leb 160 (length r.command_line))
                    (λ _. waits next _ applied (new_line next) z)
                    (λ _. waits next _ applied (rw c at l2) z))))

  -- Whatever comes over the serial line, the store changes only by the application of
  -- configurations, one after the other, each decoded from a payload that stands among the bytes
  -- that were read, right behind a line feed and a text before it that, without its carriage
  -- returns, announces a payload of its size and a digest, and whose digest is the announced one,
  -- up to the case of its letters. A receiver of which this holds, as of a new one, keeps it by
  -- reading on.
  pub read_provisioning_serial-Follows :
      (bytes seen : Bytes) (r : Receiver S)
      → Follows seen r
      → Follows
          (seen ++ bytes)
          (read_provisioning_serial store active_config sha256_hex turn_state bytes r)
  unfolding read_provisioning_serial
  read_provisioning_serial-Follows [] seen r h = subst (λ b. Follows b r) (sym (append-nil seen)) h
  read_provisioning_serial-Follows (value ∷ bytes) seen r h =
      elim_both (Follows (seen ++ (value ∷ bytes))) r.restarted
        (λ over. record {
          applied = Applied-append store sha256_hex from seen (value ∷ bytes) r.store h.applied;
          in_line = λ run _. absurd (cc (run, over));
          in_payload = λ run _. absurd (cc (run, over));
        })
        (λ run.
          subst
            (λ b. Follows b (
              read_provisioning_serial store active_config sha256_hex turn_state bytes
                (read_byte store active_config sha256_hex turn_state value r)))
            (append_assoc seen (value ∷ []) bytes)
            (read_provisioning_serial-Follows bytes (seen ++ (value ∷ []))
              (read_byte store active_config sha256_hex turn_state value r)
              (read_byte-Follows value seen r run h)))
