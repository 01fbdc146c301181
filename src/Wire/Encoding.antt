-- ===== src/Wire/Encoding.antt =====
-- device_config_wire.h: what `encodeDeviceConfigWire` writes, as a list of fields.
use mathlib.Core.List.{append-nil, append_assoc}
use qh_voice_kit.Base.{
  ℕ, ◌<◌, ◌≤◌, Bool, true, false, Option, none, some, List, [], ◌∷◌, ◌++◌, ◌≡◌, refl, arith, ◌==◌,
  length, length-append, All,
}
use qh_voice_kit.Base.Bytes.{Bytes}
use qh_voice_kit.Base.Decimal.{to_decimal}
use qh_voice_kit.Base.Tables.{all_below, all_below→at}
use qh_voice_kit.Config.{DeviceConfig}
use qh_voice_kit.Wire.{
  append_config_field, flag_text, wire_header, encode_device_config_wire, parse_config_unsigned,
  parse_config_boolean,
}
use qh_voice_kit.Wire.Fields.{Field, Fits, encode_field, encode_fields}

-- The fields of a configuration, in the order in which they are written.
abbrev pub fields_of : DeviceConfig → List Field
fields_of c =
    (1, c.network.ssid)
    ∷ (2, c.network.password)
    ∷ (3, c.realtime_voice.adapter)
    ∷ (4, c.realtime_voice.api_key)
    ∷ (5, c.realtime_voice.voice)
    ∷ (6, c.assistant.language)
    ∷ (7, c.assistant.system_prompt)
    ∷ (8, flag_text c.assistant.show_reply_text)
    ∷ (9, flag_text c.qh_sync.enabled)
    ∷ (10, c.qh_sync.endpoint)
    ∷ (11, c.qh_sync.device_id)
    ∷ (12, c.qh_sync.credential)
    ∷ (13, to_decimal c.preferences.volume_percent)
    ∷ []

append_config_field_lem :
    (output : Bytes) (id : ℕ) (value : Bytes)
    → append_config_field output id value ≡ output ++ encode_field (id, value)
unfolding append_config_field
append_config_field_lem output id value = refl

-- The encoding is the header and then each field.
pub encode_device_config_wire_lem :
    (c : DeviceConfig) → encode_device_config_wire c ≡ wire_header ++ encode_fields (fields_of c)
unfolding encode_device_config_wire encode_fields
encode_device_config_wire_lem c = simp (append_config_field_lem, append_assoc, append-nil)

-- The texts of a flag and of a volume are read back.
pub parse_config_boolean-flag_text : (b : Bool) → parse_config_boolean (flag_text b) ≡ some b
unfolding parse_config_boolean
parse_config_boolean-flag_text true = refl
parse_config_boolean-flag_text false = refl

is_number : Option ℕ → ℕ → Bool
is_number none i = false
is_number (some j) i = j == i

is_number→eq : (o : Option ℕ) (i : ℕ) → is_number o i ≡ true → o ≡ some i
unfolding is_number
is_number→eq o i h = ground arith

volumes : all_below 256 (λ v. is_number (parse_config_unsigned (to_decimal v) 255) v) ≡ true
unfolding all_below is_number parse_config_unsigned to_decimal
volumes = refl

pub parse_config_unsigned-to_decimal :
    (v : ℕ) → v < 256 → parse_config_unsigned (to_decimal v) 255 ≡ some v
parse_config_unsigned-to_decimal v h =
    is_number→eq _ v
      (all_below→at 256 (λ k. is_number (parse_config_unsigned (to_decimal k) 255) k) volumes v h)

-- A text of fields is at least as long as the value of each.
pub small_fields :
    (n : ℕ) (fs : List Field)
    → All (λ f. f.0 < 256) fs
    → length (encode_fields fs) ≤ n
    → n < 65536
    → All Fits fs
unfolding encode_fields
small_fields n [] h le lt = tt
small_fields n (f ∷ fs) (hid, h) le lt =
    let e = length-append (encode_field f) (encode_fields fs) in
    ((hid, omega (arith, e)), small_fields n fs h (omega (arith, e)) lt)
