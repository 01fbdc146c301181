-- ===== src/Preferences.antt =====
-- firmware/esp32_voice_kit/preferences_config_store.h: the store of configurations in two slots of
-- the non-volatile storage. The class `Preferences` of the platform is a parameter: a record of the
-- operations called and, in `Preferences.Nvs`, what its documentation says of them. Children: that,
-- the contract of `Transaction` for this store, and what a restart finds.
pub mod Nvs
pub mod Slots
pub mod Activation
pub mod Store
pub mod Restart
use qh_voice_kit.Base.{
  ℕ, Bool, true, false, not, ◌&&◌, ◌||◌, Option, none, some, [], ltb, leb, ◌==◌, if◌then◌else◌,
  length,
}
use qh_voice_kit.Base.Bytes.{Bytes, codes, bytes_eq}
use qh_voice_kit.Config.{DeviceConfig}
use qh_voice_kit.Transaction.{ConfigStore}
use qh_voice_kit.Wire.{
  Decoded, done, failed, encode_device_config_wire, decode_device_config_wire, maximum_wire_bytes,
}

-- The calls of `Preferences`, over the state `P` of the storage. `get_bytes` is what is read into
-- a buffer of the given size; `begin` has the arguments `"qh-voice", false`.
pub record NvsLibrary (P : Type 0) : Type 0 where
  pub nvs_begin : P → Bool × P
  pub put_bytes : Bytes → Bytes → P → ℕ × P
  pub get_bytes_length : Bytes → P → ℕ
  pub get_bytes : Bytes → ℕ → P → Bytes
  pub put_uchar : Bytes → ℕ → P → ℕ × P
  pub get_uchar : Bytes → ℕ → P → ℕ
  pub remove : Bytes → P → P

pub record PreferencesConfigStore (P : Type 0) : Type 0 where
  pub preferences : P
  pub active_slot : ℕ
  pub pending_slot : ℕ
  pub pending : Bytes

unfoldable pub slot_key : ℕ → Bytes
slot_key slot = if slot == 0 then codes "cfg0" else codes "cfg1"

abbrev pub active_key : Bytes
active_key = codes "active"

abbrev pub new_store : {P : Type 0} → P → PreferencesConfigStore P
new_store p = record { preferences = p; active_slot = 0; pending_slot = 1; pending = [] }

abbrev pub decoded_config : Decoded DeviceConfig → Option DeviceConfig
decoded_config (done c) = some c
decoded_config (failed _) = none

-- What `activeConfig` makes of the stored size and of the bytes read.
unfoldable pub decode_stored : ℕ → Bytes → Option DeviceConfig
decode_stored stored_size stored =
    if stored_size == 0 || ltb maximum_wire_bytes stored_size
    then none
    else if not (length stored == stored_size)
    then none
    else decoded_config (decode_device_config_wire false stored)

module _ {P : Type 0} (nvs : NvsLibrary P) where
  unfoldable pub begin_store : PreferencesConfigStore P → Bool × PreferencesConfigStore P
  begin_store s =
      let (opened, p) = nvs.nvs_begin s.preferences in
      let active = nvs.get_uchar active_key 0 p in
      let slot = if leb active 1 then active else 0 in
      if not opened then (false, record s { preferences = p }) else (
        true,
        record s { preferences = p; active_slot = slot; pending_slot = if slot == 0 then 1 else 0 },
      )

  unfoldable pub write_pending :
      DeviceConfig → PreferencesConfigStore P → Bool × PreferencesConfigStore P
  write_pending config s =
      let bytes = encode_device_config_wire config in
      let (written, p) = nvs.put_bytes (slot_key s.pending_slot) bytes s.preferences in
      (written == length bytes, record s { preferences = p; pending = bytes })

  unfoldable pub pending_matches :
      DeviceConfig → PreferencesConfigStore P → Bool × PreferencesConfigStore P
  pending_matches _ s =
      let key = slot_key s.pending_slot in
      let stored_size = nvs.get_bytes_length key s.preferences in
      let stored = nvs.get_bytes key stored_size s.preferences in
      if not (stored_size == length s.pending)
      then (false, s)
      else (length stored == stored_size && bytes_eq stored s.pending, s)

  unfoldable pub activate_pending : PreferencesConfigStore P → Bool × PreferencesConfigStore P
  activate_pending s =
      let (written, p) = nvs.put_uchar active_key s.pending_slot s.preferences in
      if not (written == 1) then (false, record s { preferences = p }) else (
        true,
        record {
          preferences = p;
          active_slot = s.pending_slot;
          pending_slot = if s.pending_slot == 0 then 1 else 0;
          pending = [];
        },
      )

  unfoldable pub discard_pending : PreferencesConfigStore P → PreferencesConfigStore P
  discard_pending s = record s {
    preferences = nvs.remove (slot_key s.pending_slot) s.preferences;
    pending = [];
  }

  unfoldable pub active_config : PreferencesConfigStore P → Option DeviceConfig
  unfolding decode_stored slot_key
  active_config s =
      let key = slot_key s.active_slot in
      let stored_size = nvs.get_bytes_length key s.preferences in
      decode_stored stored_size (nvs.get_bytes key stored_size s.preferences)

  abbrev pub preferences_config_store : ConfigStore (PreferencesConfigStore P)
  preferences_config_store = record {
    write_pending = write_pending;
    pending_matches = pending_matches;
    activate_pending = activate_pending;
    discard_pending = discard_pending;
  }
