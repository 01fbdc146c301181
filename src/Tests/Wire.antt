-- ===== src/Tests/Wire.antt =====
-- device_config_wire.h at a concrete configuration.
use qh_voice_kit.Base.{◌≤◌, false, [], ◌∷◌, ◌++◌, ◌≡◌, length, arith}
use qh_voice_kit.Base.Bytes.{Bytes, IsBytes}
use qh_voice_kit.Base.Decimal.{to_decimal}
use qh_voice_kit.Tests.Config.{home, home-IsValid}
use qh_voice_kit.Wire.{
  done, encode_device_config_wire, decode_device_config_wire, append_config_field,
  maximum_wire_bytes,
}
use qh_voice_kit.Wire.Prefix.{decode_append-ne-done}
use qh_voice_kit.Wire.RoundTrip.{decode-encode_device_config_wire}
use qh_voice_kit.Wire.Sound.{Accepted, decode-Accepted}

abbrev written : Bytes
written = encode_device_config_wire home

pub small : length written ≤ maximum_wire_bytes
unfolding encode_device_config_wire append_config_field to_decimal
small = omega arith

decode-encode_device_config_wire_example : decode_device_config_wire false written ≡ done home
decode-encode_device_config_wire_example = decode-encode_device_config_wire home home-IsValid small

written-IsBytes : IsBytes written
unfolding encode_device_config_wire append_config_field to_decimal
written-IsBytes = omega arith

decode-Accepted_example : Accepted written home
decode-Accepted_example =
    decode-Accepted false written written-IsBytes decode-encode_device_config_wire_example

decode_append-ne-done_example :
    ¬ (decode_device_config_wire false (written ++ (0 ∷ [])) ≡ done home)
decode_append-ne-done_example =
    decode_append-ne-done written 0 [] false false written-IsBytes
      decode-encode_device_config_wire_example
