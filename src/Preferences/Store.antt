-- ===== src/Preferences/Store.antt =====
-- preferences_config_store.h as an implementation of the contract of `Transaction`.
use qh_voice_kit.Base.{◌≤◌, ◌≡◌, refl, true, some, [], length}
use qh_voice_kit.Config.{DeviceConfig, validate_device_config}
use qh_voice_kit.Preferences.{
  NvsLibrary, PreferencesConfigStore, write_pending, pending_matches, activate_pending,
  active_config, preferences_config_store,
}
use qh_voice_kit.Preferences.Activation.{pending_matches-IsWritten, activate_pending-some}
use qh_voice_kit.Preferences.Nvs.{Documented}
use qh_voice_kit.Preferences.Slots.{
  IsSlots, write_pending_keeps, pending_matches_keeps, discard_pending_keeps,
  activate_pending_keeps,
}
use qh_voice_kit.Transaction.Contract.{Contract}
use qh_voice_kit.Wire.{encode_device_config_wire, maximum_wire_bytes}

-- The configurations that `activeConfig` can read.
abbrev pub FitsStore : DeviceConfig → Type 0
FitsStore c = length (encode_device_config_wire c) ≤ maximum_wire_bytes

module _ {P : Type 0} (nvs : NvsLibrary P) (doc : Documented nvs) where
  activates :
      (c : DeviceConfig) (s : PreferencesConfigStore P)
      → IsSlots s
      → FitsStore c
      → validate_device_config c ≡ []
      → let s1 = (write_pending nvs c s).1 in
        let s2 = (pending_matches nvs c s1).1 in
        let s3 = (activate_pending nvs s2).1 in
        (pending_matches nvs c s1).0 ≡ true
        → (activate_pending nvs s2).0 ≡ true
        → IsSlots s3 × (active_config nvs s3 ≡ some c)
  unfolding write_pending
  activates c s v hn hc hm =
      let s1 = (write_pending nvs c s).1 in
      rw (pending_matches_keeps nvs doc c s1) (
        activate_pending-some nvs doc c s1 (write_pending_keeps nvs doc c s v).0 hc hn refl
          (pending_matches-IsWritten nvs doc c s1 hm))

  unfoldable pub preferences_contract : Contract (preferences_config_store nvs)
  unfolding activates
  preferences_contract = record {
    active = active_config nvs;
    Valid = IsSlots;
    Storable = FitsStore;
    write_keeps = write_pending_keeps nvs doc;
    match_keeps = λ c s v. rw (pending_matches_keeps nvs doc c s) (v, refl);
    discard_keeps = discard_pending_keeps nvs doc;
    activate_keeps = activate_pending_keeps nvs doc;
    activates = λ c s v hn hc _. activates c s v hn hc;
  }
