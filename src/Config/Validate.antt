-- ===== src/Config/Validate.antt =====
-- device_config.h: `validateDeviceConfig` against a description of a valid configuration.
use qh_voice_kit.Base.{
  ◌≤◌, Bool, true, false, not, ◌&&◌, ◌||◌, some, List, [], ◌∷◌, ◌++◌, ◌≡◌, refl, sym, ◌∙◌, ◌≢◌, ◌↔◌,
  arith, ltb, ◌==◌, Bool-cases, Option-cases, inl, inr,
}
use qh_voice_kit.Base.Bytes.{Bytes, bytes_eq, bytes_eq_iff, is_empty}
use qh_voice_kit.Config.{
  DeviceConfig, QhSyncConfig, ConfigError, unsupported_schema, missing_wifi_ssid,
  missing_wifi_password, missing_realtime_voice_credential, unsupported_realtime_voice_adapter,
  invalid_realtime_voice_config, invalid_qh_sync, invalid_volume, seeduplex_adapter, https_scheme,
  is_https_endpoint, report, qh_sync_fault, validate_device_config, has, error_value,
}
use qh_voice_kit.Endpoint.{SecureEndpoint, parse_secure_endpoint}

-- Synchronisation has all that it needs.
pub record IsSyncable (c : QhSyncConfig) : Type 0 where
  pub server : SecureEndpoint
  pub https : parse_secure_endpoint c.endpoint https_scheme 443 ≡ some server
  pub device : c.device_id ≢ []
  pub credential : c.credential ≢ []

-- What the firmware asks of a configuration before it runs. The file
-- schemas/device-config.schema.json asks for more: a language, and the lengths of the name and the
-- password of the network, of the voice and of the system prompt.
pub record IsValid (c : DeviceConfig) : Type 0 where
  pub schema : c.schema_version ≡ 3
  pub ssid : c.network.ssid ≢ []
  pub password : c.network.password ≢ []
  pub api_key : c.realtime_voice.api_key ≢ []
  pub adapter : c.realtime_voice.adapter ≡ seeduplex_adapter
  pub voice : c.realtime_voice.voice ≢ []
  pub sync : c.qh_sync.enabled ≡ true → IsSyncable c.qh_sync
  pub volume : c.preferences.volume_percent ≤ 100

-- The fault that each error reports.
abbrev pub fault : DeviceConfig → ConfigError → Bool
fault c unsupported_schema = not (c.schema_version == 3)
fault c missing_wifi_ssid = is_empty c.network.ssid
fault c missing_wifi_password = is_empty c.network.password
fault c missing_realtime_voice_credential = is_empty c.realtime_voice.api_key
fault c unsupported_realtime_voice_adapter =
    not (bytes_eq c.realtime_voice.adapter seeduplex_adapter)
fault c invalid_realtime_voice_config = is_empty c.realtime_voice.voice
fault c invalid_qh_sync = qh_sync_fault c.qh_sync
fault c invalid_volume = ltb 100 c.preferences.volume_percent

has-append :
    (xs : List ConfigError) (e f : ConfigError)
    → has (xs ++ (e ∷ [])) f ≡ (has xs f || error_value e == error_value f)
unfolding has
has-append [] e f = ground arith
has-append (x ∷ xs) e f = ground (arith, has-append xs e f)

has-report :
    (b : Bool) (e f : ConfigError) (xs : List ConfigError)
    → has (report b e xs) f ≡ (has xs f || (b && error_value e == error_value f))
has-report true e f xs = has-append xs e f
has-report false e f xs = ground arith

has-nil : (e : ConfigError) → has [] e ≡ false
unfolding has
has-nil e = refl

and_false : (b : Bool) → (b && false) ≡ false
and_false b = ground arith

and_true : (b : Bool) → (b && true) ≡ b
and_true b = ground arith

or_false : (b : Bool) → (b || false) ≡ b
or_false b = ground arith

ruleset counting = (has-report, has-nil, and_false, and_true, or_false)

-- The errors name exactly the faults of the configuration: none is missed, and none is invented or
-- hidden by another.
pub has-validate_device_config :
    (c : DeviceConfig) (e : ConfigError) → has (validate_device_config c) e ≡ fault c e
unfolding validate_device_config
has-validate_device_config c unsupported_schema = simp counting
has-validate_device_config c _ = simp counting

empty_test : (s : Bytes) → ((is_empty s ≡ false) → (s ≢ [])) × ((s ≢ []) → (is_empty s ≡ false))
empty_test s = (λ h. ground arith, λ h. ground arith)

sync_test : (c : QhSyncConfig) → ((qh_sync_fault c ≡ false) ↔ (c.enabled ≡ true → IsSyncable c))
unfolding qh_sync_fault is_https_endpoint
sync_test c = elim (Option-cases (parse_secure_endpoint c.endpoint https_scheme 443)) [
  | inl e ↦ (
    λ h on. absurd (ground arith),
    λ v. elim (Bool-cases c.enabled) [ inl on ↦ let s = v on in cc (s.https) | inr off ↦ rw off ],
  )
  | inr (server, e) ↦ (
    λ h on. record { server = server; https = e; device = ground arith; credential = ground arith },
    λ v. elim (Bool-cases c.enabled) [
      | inl on ↦
          let s = v on in
          rw on (
            rw (e, is_https_endpoint)
              (rw ((empty_test _).1 s.device, (empty_test _).1 s.credential)))
      | inr off ↦ rw off
    ],
  )
]

no_errors : (xs : List ConfigError) → ((e : ConfigError) → has xs e ≡ false) → xs ≡ []
unfolding has
no_errors [] h = refl
no_errors (x ∷ xs) h = ground (arith, h x)

module _ (c : DeviceConfig) where
  no_fault : validate_device_config c ≡ [] → (e : ConfigError) → fault c e ≡ false
  no_fault h e = sym (has-validate_device_config c e) ∙ rw h (has-nil e)

  no_fault-IsValid : ((e : ConfigError) → fault c e ≡ false) → IsValid c
  no_fault-IsValid h = record {
    schema = ground (arith, h unsupported_schema);
    ssid = (empty_test _).0 (h missing_wifi_ssid);
    password = (empty_test _).0 (h missing_wifi_password);
    api_key = (empty_test _).0 (h missing_realtime_voice_credential);
    adapter = ground (
      arith,
      h unsupported_realtime_voice_adapter,
      bytes_eq_iff c.realtime_voice.adapter seeduplex_adapter,
    );
    voice = (empty_test _).0 (h invalid_realtime_voice_config);
    sync = (sync_test c.qh_sync).0 (h invalid_qh_sync);
    volume = ground (arith, h invalid_volume);
  }

  IsValid-fault : IsValid c → (e : ConfigError) → fault c e ≡ false
  IsValid-fault v unsupported_schema = rw v.schema
  IsValid-fault v missing_wifi_ssid = (empty_test _).1 v.ssid
  IsValid-fault v missing_wifi_password = (empty_test _).1 v.password
  IsValid-fault v missing_realtime_voice_credential = (empty_test _).1 v.api_key
  IsValid-fault v unsupported_realtime_voice_adapter =
      ground (arith, v.adapter, bytes_eq_iff c.realtime_voice.adapter seeduplex_adapter)
  IsValid-fault v invalid_realtime_voice_config = (empty_test _).1 v.voice
  IsValid-fault v invalid_qh_sync = (sync_test c.qh_sync).1 v.sync
  IsValid-fault v invalid_volume = ground (arith, v.volume)

-- Validation collects no error exactly for the configurations with schema version 3, the name and
-- the password of a network, a credential, the adapter of the realtime service, a voice, a volume
-- of at most 100 percent, and, when synchronisation is enabled, an https endpoint, a device's
-- identifier and a credential. No other field or length is asked for.
pub validate_device_config-eq-nil_iff :
    (c : DeviceConfig) → (validate_device_config c ≡ []) ↔ IsValid c
validate_device_config-eq-nil_iff c = (
  λ h. no_fault-IsValid c (no_fault c h),
  λ v. no_errors _ (λ e. has-validate_device_config c e ∙ IsValid-fault c v e),
)
