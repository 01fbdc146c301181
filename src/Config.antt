-- ===== src/Config.antt =====
-- firmware/esp32_voice_kit/device_config.h: the device configuration and its validation. The
-- children: what a valid configuration is, and what the summary shows.
pub mod Validate
pub mod Summary
use qh_voice_kit.Base.{
  ℕ, Bool, true, false, not, ◌&&◌, ◌||◌, none, some, List, [], ◌∷◌, ◌++◌, ltb, ◌==◌, if◌then◌else◌,
}
use qh_voice_kit.Base.Bytes.{Bytes, codes, bytes_eq, is_empty}
use qh_voice_kit.Endpoint.{parse_secure_endpoint}

abbrev pub device_config_schema_version : ℕ
device_config_schema_version = 3

pub record NetworkConfig : Type 0 where
  pub ssid : Bytes
  pub password : Bytes

pub record RealtimeVoiceConfig : Type 0 where
  pub adapter : Bytes
  pub api_key : Bytes
  pub voice : Bytes

pub record AssistantConfig : Type 0 where
  pub language : Bytes
  pub system_prompt : Bytes
  pub show_reply_text : Bool

pub record QhSyncConfig : Type 0 where
  pub enabled : Bool
  pub endpoint : Bytes
  pub device_id : Bytes
  pub credential : Bytes

pub record PreferencesConfig : Type 0 where
  pub volume_percent : ℕ  -- uint8_t

pub record DeviceConfig : Type 0 where
  pub schema_version : ℕ  -- uint16_t
  pub network : NetworkConfig
  pub realtime_voice : RealtimeVoiceConfig
  pub assistant : AssistantConfig
  pub qh_sync : QhSyncConfig
  pub preferences : PreferencesConfig

pub data ConfigError : Type 0 where
  unsupported_schema missing_wifi_ssid missing_wifi_password : ConfigError
  missing_realtime_voice_credential unsupported_realtime_voice_adapter : ConfigError
  invalid_realtime_voice_config invalid_qh_sync invalid_volume : ConfigError

abbrev pub seeduplex_adapter : Bytes
seeduplex_adapter = codes "doubao-seeduplex-v1"

abbrev pub https_scheme : Bytes
https_scheme = codes "https://"

unfoldable pub is_https_endpoint : Bytes → Bool
is_https_endpoint endpoint = elim (parse_secure_endpoint endpoint https_scheme 443) [
  | none ↦ false
  | some _ ↦ true
]

-- `if (fault) result.errors.push_back(error);`
abbrev pub report : Bool → ConfigError → List ConfigError → List ConfigError
report fault error errors = if fault then errors ++ (error ∷ []) else errors

-- The tests of `validateDeviceConfig`, in order.
unfoldable pub qh_sync_fault : QhSyncConfig → Bool
qh_sync_fault c =
    c.enabled
    && (not (is_https_endpoint c.endpoint) || is_empty c.device_id || is_empty c.credential)

-- The errors that `validateDeviceConfig` collects.
unfoldable pub validate_device_config : DeviceConfig → List ConfigError
validate_device_config c =
    let e1 =
      report (not (c.schema_version == device_config_schema_version)) unsupported_schema [] in
    let e2 = report (is_empty c.network.ssid) missing_wifi_ssid e1 in
    let e3 = report (is_empty c.network.password) missing_wifi_password e2 in
    let e4 = report (is_empty c.realtime_voice.api_key) missing_realtime_voice_credential e3 in
    let e5 =
      report (not (bytes_eq c.realtime_voice.adapter seeduplex_adapter))
        unsupported_realtime_voice_adapter e4 in
    let e6 = report (is_empty c.realtime_voice.voice) invalid_realtime_voice_config e5 in
    let e7 = report (qh_sync_fault c.qh_sync) invalid_qh_sync e6 in
    report (ltb 100 c.preferences.volume_percent) invalid_volume e7

-- The enumerators' values, by which `std::find` compares them.
abbrev error_value : ConfigError → ℕ
error_value unsupported_schema = 0
error_value missing_wifi_ssid = 1
error_value missing_wifi_password = 2
error_value missing_realtime_voice_credential = 3
error_value unsupported_realtime_voice_adapter = 4
error_value invalid_realtime_voice_config = 5
error_value invalid_qh_sync = 6
error_value invalid_volume = 7

-- `ConfigValidationResult::ok` and `has`.
abbrev pub ok : List ConfigError → Bool
ok errors = is_empty errors

unfoldable pub has : List ConfigError → ConfigError → Bool
has [] error = false
has (e ∷ errors) error = error_value e == error_value error || has errors error

-- `redactedSummary`.
unfoldable pub redacted_summary : DeviceConfig → Bytes
redacted_summary c =
    codes "configured=true ssid="
    ++ (c.network.ssid
        ++ (codes " realtime="
            ++ (c.realtime_voice.adapter
                ++ (codes "/"
                    ++ (c.realtime_voice.voice
                        ++ (codes " qh_sync="
                            ++ (if c.qh_sync.enabled
                                then codes "enabled"
                                else codes "disabled")))))))
