-- ===== src/Wire/RoundTrip.antt =====
-- device_config_wire.h: what is encoded is decoded.
use mathlib.Core.List.{append-nil}
use qh_voice_kit.Base.{
  ℕ, ◌+◌, ◌%◌, ◌^◌, ◌≤◌, ◌<◌, Bool, true, false, List, [], ◌∷◌, ◌++◌, ◌≡◌, refl, sym, ◌∙◌, ap,
  arith, length, All,
}
use qh_voice_kit.Base.Bytes.{Bytes, bytes_eq}
use qh_voice_kit.Config.{DeviceConfig}
use qh_voice_kit.Config.Validate.{IsValid, validate_device_config-eq-nil_iff}
use qh_voice_kit.Wire.{
  done, ◌>>=◌, wire_header, maximum_wire_bytes, encode_device_config_wire, store_field,
  decode_fields, fresh_progress, finish_decode, decode_device_config_wire,
}
use qh_voice_kit.Wire.Encoding.{
  fields_of, small_fields, encode_device_config_wire_lem, parse_config_boolean-flag_text,
  parse_config_unsigned-to_decimal,
}
use qh_voice_kit.Wire.Fields.{
  Field, >>=_assoc, apply_field, apply_fields, encode_fields, decode_fields-encode_fields,
}

abbrev everything_seen : List Bool
everything_seen =
    false ∷ true ∷ true ∷ true ∷ true ∷ true ∷ true ∷ true ∷ true ∷ true ∷ true ∷ true ∷ true ∷ true
    ∷ []

-- The fields of a configuration rebuild it.
apply_fields-fields_of :
    (c : DeviceConfig)
    → c.schema_version ≡ 3
    → c.preferences.volume_percent ≤ 255
    → apply_fields fresh_progress (fields_of c)
      ≡ done (record { config = c; seen = everything_seen })
unfolding apply_fields apply_field store_field
apply_fields-fields_of c s v = rw (parse_config_boolean-flag_text c.assistant.show_reply_text) (
    rw (parse_config_boolean-flag_text c.qh_sync.enabled) (
      rw (parse_config_unsigned-to_decimal c.preferences.volume_percent (omega arith)) (
        rw
          (let e : c.preferences.volume_percent % 2 ^ 8 ≡ c.preferences.volume_percent =
              omega arith in
            e)
          (ap
            (λ (n : ℕ).
              done (record { config = record c { schema_version = n }; seen = everything_seen }))
            (sym s)))))

header_tests :
    (fields : Bytes)
    → 6 + length fields ≤ maximum_wire_bytes
    → decode_device_config_wire false (wire_header ++ fields)
      ≡ (decode_fields 13 fresh_progress fields >>= λ r. finish_decode r.0 r.1)
unfolding decode_device_config_wire bytes_eq
header_tests fields h = ground arith

finish_decode-done :
    (c : DeviceConfig)
    → IsValid c
    → finish_decode (record { config = c; seen = everything_seen }) [] ≡ done c
unfolding finish_decode
finish_decode-done c v = rw ((validate_device_config-eq-nil_iff c).1 v)

-- A header for thirteen fields and fields that fit are decoded as what the fields do.
pub decode-encode_fields :
    (fs : List Field)
    → All (λ f. f.0 < 256) fs
    → length fs ≡ 13
    → 6 + length (encode_fields fs) ≤ maximum_wire_bytes
    → decode_device_config_wire false (wire_header ++ encode_fields fs)
      ≡ (apply_fields fresh_progress fs >>= λ p. finish_decode p [])
decode-encode_fields fs ids n h =
    let fits = small_fields 8192 fs ids (omega arith) (omega arith) in
    let loop = rw append-nil at (decode_fields-encode_fields fs fresh_progress [] fits) in
    header_tests (encode_fields fs) h
    ∙ ap (λ r. r >>= λ q. finish_decode q.0 q.1) (rw n at loop)
    ∙ >>=_assoc (apply_fields fresh_progress fs) (λ q. done (q, [])) (λ q. finish_decode q.0 q.1)

-- A valid configuration that encodes to at most 8192 bytes is decoded to itself.
pub decode-encode_device_config_wire :
    (c : DeviceConfig)
    → IsValid c
    → length (encode_device_config_wire c) ≤ maximum_wire_bytes
    → decode_device_config_wire false (encode_device_config_wire c) ≡ done c
decode-encode_device_config_wire c v h =
    let e = encode_device_config_wire_lem c in
    rw e (
      decode-encode_fields (fields_of c) (omega arith) refl
        (omega (arith, ap (λ (s : Bytes). length s) e))
      ∙ rw (apply_fields-fields_of c v.schema (omega arith)) (finish_decode-done c v))
