-- ===== src/Wire.antt =====
-- firmware/esp32_voice_kit/device_config_wire.h: the binary form of a configuration, a header and
-- thirteen fields (identifier, two-byte length, bytes). The input from the cursor on is a list, so
-- `size - cursor` is its length. Children: the fields apart from their bytes, and what holds of
-- encoding and decoding.
pub mod Fields
pub mod Encoding
pub mod RoundTrip
pub mod Sound
pub mod Prefix
pub mod Count
use qh_voice_kit.Base.{
  ℕ, zero, suc, ◌+◌, ◌-◌, ◌*◌, ◌/◌, bit_or, Bool, true, false, not, ◌&&◌, ◌||◌, Option, none, some,
  List, [], ◌∷◌, ◌++◌, ltb, ◌==◌, if◌then◌else◌, length, get_or, set, take, drop,
}
use qh_voice_kit.Base.Bytes.{Bytes, codes, bytes_eq, is_empty}
use qh_voice_kit.Base.Decimal.{to_decimal}
use qh_voice_kit.Base.Words.{◌<<<◌, ◌>>>◌, u8, u32, sub32}
use qh_voice_kit.Config.{DeviceConfig, device_config_schema_version, validate_device_config, ok}

abbrev pub maximum_wire_bytes : ℕ
maximum_wire_bytes = 8192

abbrev pub wire_version : ℕ
wire_version = 3

abbrev pub wire_field_count : ℕ
wire_field_count = 13

pub data ConfigWireError : Type 0 where
  too_large bad_magic unsupported_version truncated unknown_field : ConfigWireError
  duplicate_field missing_field invalid_number invalid_config : ConfigWireError

-- `ConfigWireDecodeResult`: an error and no configuration, or `kNone` and one. The steps of the
-- decoder use it too.
pub data Decoded {ℓ} (A : Type ℓ) : Type ℓ where
  done : A → Decoded A
  failed : ConfigWireError → Decoded A

infixl 5 ◌>>=◌
abbrev pub ◌>>=◌ {ℓ κ} : {A : Type ℓ} {B : Type κ} → Decoded A → (A → Decoded B) → Decoded B
done a >>= f = f a
failed e >>= f = failed e

-- `appendConfigField`.
unfoldable pub append_config_field : Bytes → ℕ → Bytes → Bytes
append_config_field output id value =
    output ++ (u8 id ∷ u8 (length value >>> 8) ∷ u8 (length value) ∷ value)

abbrev pub flag_text : Bool → Bytes
flag_text b = if b then codes "1" else codes "0"

abbrev pub wire_header : Bytes
wire_header = b'Q' ∷ b'H' ∷ b'V' ∷ b'C' ∷ wire_version ∷ wire_field_count ∷ []

unfoldable pub encode_device_config_wire : DeviceConfig → Bytes
encode_device_config_wire c =
    let o1 = append_config_field wire_header 1 c.network.ssid in
    let o2 = append_config_field o1 2 c.network.password in
    let o3 = append_config_field o2 3 c.realtime_voice.adapter in
    let o4 = append_config_field o3 4 c.realtime_voice.api_key in
    let o5 = append_config_field o4 5 c.realtime_voice.voice in
    let o6 = append_config_field o5 6 c.assistant.language in
    let o7 = append_config_field o6 7 c.assistant.system_prompt in
    let o8 = append_config_field o7 8 (flag_text c.assistant.show_reply_text) in
    let o9 = append_config_field o8 9 (flag_text c.qh_sync.enabled) in
    let o10 = append_config_field o9 10 c.qh_sync.endpoint in
    let o11 = append_config_field o10 11 c.qh_sync.device_id in
    let o12 = append_config_field o11 12 c.qh_sync.credential in
    append_config_field o12 13 (to_decimal c.preferences.volume_percent)

-- The loop of `parseConfigUnsigned`; `maximum - digit` is a `uint32_t`.
unfoldable pub parse_digits : ℕ → ℕ → Bytes → Option ℕ
parse_digits maximum parsed [] = some parsed
parse_digits maximum parsed (c ∷ value) =
    let digit = c - b'0' in
    let rest = parse_digits maximum (u32 (parsed * 10 + digit)) value in
    if ltb c b'0' || ltb b'9' c
    then none
    else if ltb (sub32 maximum digit / 10) parsed
    then none
    else rest

unfoldable pub parse_config_unsigned : Bytes → ℕ → Option ℕ
unfolding parse_digits
parse_config_unsigned [] maximum = none
parse_config_unsigned value maximum = parse_digits maximum 0 value

unfoldable pub parse_config_boolean : Bytes → Option Bool
unfolding bytes_eq
parse_config_boolean value =
    if bytes_eq value (codes "1")
    then some true
    else if bytes_eq value (codes "0")
    then some false
    else none

abbrev number_or_fail {ℓ} : {A : Type ℓ} → Option A → Decoded A
number_or_fail none = failed invalid_number
number_or_fail (some a) = done a

-- The `switch` on the identifier.
unfoldable pub store_field : ℕ → Bytes → DeviceConfig → Decoded DeviceConfig
unfolding parse_config_unsigned parse_config_boolean
store_field id value c =
    if id == 1
    then done (record c { network = record (c.network) { ssid = value } })
    else if id == 2
    then done (record c { network = record (c.network) { password = value } })
    else if id == 3
    then done (record c { realtime_voice = record (c.realtime_voice) { adapter = value } })
    else if id == 4
    then done (record c { realtime_voice = record (c.realtime_voice) { api_key = value } })
    else if id == 5
    then done (record c { realtime_voice = record (c.realtime_voice) { voice = value } })
    else if id == 6
    then done (record c { assistant = record (c.assistant) { language = value } })
    else if id == 7
    then done (record c { assistant = record (c.assistant) { system_prompt = value } })
    else if id == 8
    then (do
      b ← number_or_fail (parse_config_boolean value)
      done (record c { assistant = record (c.assistant) { show_reply_text = b } }))
    else if id == 9
    then (do
      b ← number_or_fail (parse_config_boolean value)
      done (record c { qh_sync = record (c.qh_sync) { enabled = b } }))
    else if id == 10
    then done (record c { qh_sync = record (c.qh_sync) { endpoint = value } })
    else if id == 11
    then done (record c { qh_sync = record (c.qh_sync) { device_id = value } })
    else if id == 12
    then done (record c { qh_sync = record (c.qh_sync) { credential = value } })
    else if id == 13
    then (do
      n ← number_or_fail (parse_config_unsigned value 255)
      done (record c { preferences = record { volume_percent = u8 n } }))
    else failed unknown_field

-- The local `config` and `seen`, an array of fourteen flags.
pub record Progress : Type 0 where
  pub config : DeviceConfig
  pub seen : List Bool

-- The value-initialised `DeviceConfig config{}` with its version set, and no field seen.
abbrev pub fresh_progress : Progress
fresh_progress = record {
  config = record {
    schema_version = device_config_schema_version;
    network = record { ssid = []; password = [] };
    realtime_voice = record { adapter = []; api_key = []; voice = [] };
    assistant = record { language = []; system_prompt = []; show_reply_text = false };
    qh_sync = record { enabled = false; endpoint = []; device_id = []; credential = [] };
    preferences = record { volume_percent = 0 };
  };
  seen =
      false ∷ false ∷ false ∷ false ∷ false ∷ false ∷ false ∷ false ∷ false ∷ false ∷ false ∷ false
      ∷ false ∷ false ∷ [];
}

-- One round of the loop, behind the test that three bytes are left: the tests of a field with
-- identifier `id` and length `size`, whose bytes are in front of `input`.
unfoldable pub decode_field : ℕ → ℕ → Progress → Bytes → Decoded (Progress × Bytes)
decode_field id size p input =
    if id == 0 || ltb wire_field_count id
    then failed unknown_field
    else if get_or p.seen id false
    then failed duplicate_field
    else if ltb (length input) size
    then failed truncated
    else do
      c ← store_field id (take size input) p.config
      done (record { config = c; seen = set p.seen id true }, drop size input)

unfoldable pub decode_fields : ℕ → Progress → Bytes → Decoded (Progress × Bytes)
decode_fields zero p input = done (p, input)
decode_fields (suc rounds) p (id ∷ high ∷ low ∷ input) =
    decode_field id (bit_or (high <<< 8) low) p input >>= λ r. decode_fields rounds r.0 r.1
decode_fields (suc rounds) p _ = failed truncated

-- The loop over the identifiers 1 to 13.
unfoldable pub all_seen : List Bool → Bool
all_seen [] = true
all_seen (b ∷ seen) = b && all_seen seen

unfoldable pub finish_decode : Progress → Bytes → Decoded DeviceConfig
unfolding all_seen
finish_decode p input =
    if not (is_empty input)
    then failed truncated
    else if not (all_seen (drop 1 p.seen))
    then failed missing_field
    else if not (ok (validate_device_config p.config))
    then failed invalid_config
    else done p.config

-- `input == nullptr` is the first argument.
unfoldable pub decode_device_config_wire : Bool → Bytes → Decoded DeviceConfig
decode_device_config_wire is_null input =
    if ltb maximum_wire_bytes (length input)
    then failed too_large
    else if is_null || ltb (length input) 6
    then failed truncated
    else if not (bytes_eq (take 4 input) (codes "QHVC"))
    then failed bad_magic
    else if not (get_or input 4 0 == wire_version)
    then failed unsupported_version
    else do
      r ← decode_fields (get_or input 5 0) fresh_progress (drop 6 input)
      finish_decode r.0 r.1
