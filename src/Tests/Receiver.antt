-- ===== src/Tests/Receiver.antt =====
-- The serial line of esp32_voice_kit.ino, with a store that holds one configuration and a digest
-- that is the same for every payload.
use qh_voice_kit.Base.{◌≡◌, refl, true, Option, none, some, [], ◌∷◌, ◌++◌, arith, length, All}
use qh_voice_kit.Base.Bytes.{Bytes, codes, bytes_eq}
use qh_voice_kit.Base.Decimal.{to_decimal}
use qh_voice_kit.Config.{DeviceConfig}
use qh_voice_kit.Provisioning.{
  config, is_hex, all_hex, is_sha256_hex, to_lower, lower_case, parse_size, digits_value,
  parse_words, parse_provisioning_command, split_words,
}
use qh_voice_kit.Receiver.{new_receiver, read_provisioning_serial, equals_ignore_case}
use qh_voice_kit.Receiver.Bounds.{IsBounded, read_provisioning_serial-IsBounded}
use qh_voice_kit.Receiver.Heard.{new_line}
use qh_voice_kit.Receiver.Changes.{Follows, same, read_provisioning_serial-Follows}
use qh_voice_kit.Receiver.Reading.{is_text}
use qh_voice_kit.Receiver.Transfer.{Applies, read_provisioning_serial-Applies}
use qh_voice_kit.Tests.Config.{home, home-IsValid}
use qh_voice_kit.Tests.Wire.{small}
use qh_voice_kit.Transaction.{ConfigStore}
use qh_voice_kit.Turn.{unconfigured}
use qh_voice_kit.Wire.{encode_device_config_wire, append_config_field}

-- The configuration in use and the one that waits.
abbrev Slots : Type 0
Slots = Option DeviceConfig × Option DeviceConfig

abbrev slots : ConfigStore Slots
slots = record {
  write_pending = λ c s. (true, (s.0, some c));
  pending_matches = λ _ s. (true, s);
  activate_pending = λ s. (true, (s.1, none));
  discard_pending = λ s. (s.0, none);
}

abbrev digest : Bytes
digest = codes "0123456789abcdef0123456789abcdef0123456789abcdef0123456789abcdef"

abbrev line : Bytes
line = codes "QH_VOICE_CONFIG 108 0123456789ABCDEF0123456789ABCDEF0123456789ABCDEF0123456789ABCDEF"

abbrev bytes : Bytes
bytes = line ++ (b'\n' ∷ encode_device_config_wire home)

announces :
    parse_provisioning_command line ≡ config (length (encode_device_config_wire home)) digest
unfolding parse_provisioning_command split_words parse_words is_sha256_hex all_hex is_hex parse_size
    digits_value lower_case to_lower bytes_eq encode_device_config_wire append_config_field
    to_decimal
announces = refl

text_line : All (λ b. is_text b ≡ true) line
text_line = ground arith

same_digest : equals_ignore_case digest digest ≡ true
unfolding bytes_eq lower_case to_lower
same_digest = refl

read_provisioning_serial-Applies_example :
    Applies slots
      (λ s. s.0)
      (λ _. digest)
      unconfigured
      home
      (none, none)
      (read_provisioning_serial slots
        (λ s. s.0)
        (λ _. digest)
        unconfigured
        bytes
        (new_receiver true (none, none)))
read_provisioning_serial-Applies_example =
    read_provisioning_serial-Applies slots (λ s. s.0) (λ _. digest) unconfigured home line digest
      (none, none) home-IsValid small text_line (omega arith) announces same_digest

read_provisioning_serial-IsBounded_example : IsBounded (
    read_provisioning_serial slots
      (λ s. s.0)
      (λ _. digest)
      unconfigured
      line
      (new_receiver true (none, none)))
read_provisioning_serial-IsBounded_example =
    read_provisioning_serial-IsBounded slots (λ s. s.0) (λ _. digest) unconfigured true (none, none)
      line

-- A new receiver has read nothing.
nothing_read :
    Follows slots
      (λ s. s.0)
      (λ _. digest)
      unconfigured
      (none, none)
      []
      (new_receiver true (none, none))
nothing_read = record {
  applied = same;
  in_line = λ _ _. new_line [];
  in_payload = λ _ k. absurd (omega arith);
}

read_provisioning_serial-Follows_example :
    Follows slots
      (λ s. s.0)
      (λ _. digest)
      unconfigured
      (none, none)
      bytes
      (read_provisioning_serial slots
        (λ s. s.0)
        (λ _. digest)
        unconfigured
        bytes
        (new_receiver true (none, none)))
read_provisioning_serial-Follows_example =
    read_provisioning_serial-Follows slots (λ s. s.0) (λ _. digest) unconfigured (none, none) bytes
      [] (new_receiver true (none, none)) nothing_read
