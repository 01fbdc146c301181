-- ===== src/Config/Summary.antt =====
-- device_config.h: the summary that may be logged.
use qh_voice_kit.Base.{◌≡◌, refl}
use qh_voice_kit.Base.Bytes.{Bytes}
use qh_voice_kit.Config.{DeviceConfig, redacted_summary}

-- The configuration with other secrets: password, API key and synchronisation credential.
pub with_secrets : DeviceConfig → Bytes → Bytes → Bytes → DeviceConfig
with_secrets c password api_key credential = record c {
  network = record (c.network) { password = password };
  realtime_voice = record (c.realtime_voice) { api_key = api_key };
  qh_sync = record (c.qh_sync) { credential = credential };
}

-- The summary is the same whatever the Wi-Fi password, the API key and the credential are.
pub redacted_summary-with_secrets :
    (c : DeviceConfig) (password api_key credential : Bytes)
    → redacted_summary (with_secrets c password api_key credential) ≡ redacted_summary c
unfolding redacted_summary with_secrets
redacted_summary-with_secrets c password api_key credential = refl
