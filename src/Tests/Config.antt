-- ===== src/Tests/Config.antt =====
-- device_config.h at a concrete configuration.
use qh_voice_kit.Base.{true, [], ◌∷◌, ◌≡◌, refl, ◌↔◌}
use qh_voice_kit.Base.Bytes.{codes, bytes_eq}
use qh_voice_kit.Base.Search.{find_first, find_last}
use qh_voice_kit.Config.{
  DeviceConfig, seeduplex_adapter, invalid_volume, validate_device_config, qh_sync_fault,
  is_https_endpoint,
}
use qh_voice_kit.Config.Validate.{IsValid, validate_device_config-eq-nil_iff}
use qh_voice_kit.Endpoint.{parse_secure_endpoint, split_authority, finish_endpoint, parse_port}

abbrev pub home : DeviceConfig
home = record {
  schema_version = 3;
  network = record { ssid = codes "home"; password = codes "secret" };
  realtime_voice = record { adapter = seeduplex_adapter; api_key = codes "key"; voice = codes "v" };
  assistant = record { language = codes "zh"; system_prompt = codes "hi"; show_reply_text = true };
  qh_sync = record {
    enabled = true;
    endpoint = codes "https://qh.example/";
    device_id = codes "d1";
    credential = codes "c";
  };
  preferences = record { volume_percent = 80 };
}

abbrev loud : DeviceConfig
loud = record home { preferences = record { volume_percent = 101 } }

pub home_ok : validate_device_config home ≡ []
unfolding validate_device_config qh_sync_fault is_https_endpoint parse_secure_endpoint find_first
    find_last bytes_eq split_authority finish_endpoint parse_port
home_ok = refl

loud_error : validate_device_config loud ≡ invalid_volume ∷ []
unfolding validate_device_config qh_sync_fault is_https_endpoint parse_secure_endpoint find_first
    find_last bytes_eq split_authority finish_endpoint parse_port
loud_error = refl

pub home-IsValid : IsValid home
home-IsValid = (validate_device_config-eq-nil_iff home).0 home_ok

validate_device_config-eq-nil_iff_example : (validate_device_config home ≡ []) ↔ IsValid home
validate_device_config-eq-nil_iff_example = validate_device_config-eq-nil_iff home
