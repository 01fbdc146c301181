-- ===== src/Preferences/Slots.antt =====
-- preferences_config_store.h: the calls of the store and its two slots.
use qh_voice_kit.Base.{
  ℕ, ◌≤◌, ◌<◌, ◌≡◌, ◌≢◌, refl, ap, Bool, false, ◌⊎◌, some, [], length, arith, ◌==◌, unless_both,
}
use qh_voice_kit.Config.{DeviceConfig, validate_device_config}
use qh_voice_kit.Config.Validate.{validate_device_config-eq-nil_iff}
use qh_voice_kit.Preferences.{
  NvsLibrary, PreferencesConfigStore, slot_key, active_key, write_pending, pending_matches,
  activate_pending, discard_pending, active_config, decoded_config, decode_stored,
}
use qh_voice_kit.Preferences.Nvs.{Documented, SameEntry}
use qh_voice_kit.Wire.{encode_device_config_wire, maximum_wire_bytes, append_config_field}
use qh_voice_kit.Wire.RoundTrip.{decode-encode_device_config_wire}

-- One slot is in use and the other one is pending.
abbrev pub IsSlots : {P : Type 0} → PreferencesConfigStore P → Type 0
IsSlots s =
    ((s.active_slot ≡ 0) × (s.pending_slot ≡ 1)) ⊎ ((s.active_slot ≡ 1) × (s.pending_slot ≡ 0))

pub slot_key_ne : (a b : ℕ) → ((a ≡ 0) × (b ≡ 1)) ⊎ ((a ≡ 1) × (b ≡ 0)) → slot_key a ≢ slot_key b
unfolding slot_key
slot_key_ne a b h = ground arith

pub slot_key-ne-active_key : (a : ℕ) → slot_key a ≢ active_key
unfolding slot_key
slot_key-ne-active_key a = ground arith

pub encode_device_config_wire_nonempty :
    (c : DeviceConfig) → 0 < length (encode_device_config_wire c)
unfolding encode_device_config_wire append_config_field
encode_device_config_wire_nonempty c = omega arith

decode_stored-encode_device_config_wire :
    (c : DeviceConfig)
    → validate_device_config c ≡ []
    → length (encode_device_config_wire c) ≤ maximum_wire_bytes
    → decode_stored (length (encode_device_config_wire c)) (encode_device_config_wire c) ≡ some c
unfolding decode_stored
decode_stored-encode_device_config_wire c v h = ground (
  arith,
  encode_device_config_wire_nonempty c,
  ap decoded_config
      (decode-encode_device_config_wire c ((validate_device_config-eq-nil_iff c).0 v) h),
)

module _ {P : Type 0} (nvs : NvsLibrary P) (doc : Documented nvs) where
  -- The configuration of a slot depends on its entry alone.
  pub active_config-SameEntry :
      (s t : PreferencesConfigStore P)
      → s.active_slot ≡ t.active_slot
      → SameEntry nvs (slot_key t.active_slot) s.preferences t.preferences
      → active_config nvs s ≡ active_config nvs t
  unfolding active_config
  active_config-SameEntry s t h e = rw (h, e.same_length, e.same_bytes, active_config) refl

  -- A read that gives the encoded form of a configuration gives the configuration.
  pub active_config-some :
      (c : DeviceConfig) (s : PreferencesConfigStore P)
      → validate_device_config c ≡ []
      → length (encode_device_config_wire c) ≤ maximum_wire_bytes
      → let key = slot_key s.active_slot in
        let size = nvs.get_bytes_length key s.preferences in
        size ≡ length (encode_device_config_wire c)
        → nvs.get_bytes key size s.preferences ≡ encode_device_config_wire c
        → active_config nvs s ≡ some c
  unfolding active_config
  active_config-some c s v h hl hb =
      rw (hb, active_config) (rw hl (decode_stored-encode_device_config_wire c v h))

  -- A change of the storage outside the slot in use.
  kept :
      (s t : PreferencesConfigStore P)
      → s.active_slot ≡ t.active_slot
      → s.pending_slot ≡ t.pending_slot
      → IsSlots t
      → SameEntry nvs (slot_key t.active_slot) s.preferences t.preferences
      → IsSlots s × (active_config nvs s ≡ active_config nvs t)
  kept s t ha hp v e = (rw (ha, hp) v, active_config-SameEntry s t ha e)

  pub write_pending_keeps :
      (c : DeviceConfig) (s : PreferencesConfigStore P)
      → IsSlots s
      → IsSlots (write_pending nvs c s).1
        × (active_config nvs (write_pending nvs c s).1 ≡ active_config nvs s)
  unfolding write_pending
  write_pending_keeps c s v =
      kept (write_pending nvs c s).1 s refl refl v
        (doc.put_bytes_keeps _ _ _ s.preferences (slot_key_ne s.active_slot s.pending_slot v))

  pub pending_matches_keeps :
      (c : DeviceConfig) (s : PreferencesConfigStore P) → (pending_matches nvs c s).1 ≡ s
  unfolding pending_matches
  pending_matches_keeps c s =
      unless_both (λ (r : Bool × PreferencesConfigStore P). r.1 ≡ s) _ (λ _. refl) (λ _. refl)

  pub discard_pending_keeps :
      (s : PreferencesConfigStore P)
      → IsSlots s
      → IsSlots (discard_pending nvs s)
        × (active_config nvs (discard_pending nvs s) ≡ active_config nvs s)
  unfolding discard_pending
  discard_pending_keeps s v =
      kept (discard_pending nvs s) s refl refl v
        (doc.remove_keeps _ _ s.preferences (slot_key_ne s.active_slot s.pending_slot v))

  pub activate_pending_keeps :
      (s : PreferencesConfigStore P)
      → IsSlots s
      → (activate_pending nvs s).0 ≡ false
      → IsSlots (activate_pending nvs s).1
        × (active_config nvs (activate_pending nvs s).1 ≡ active_config nvs s)
  unfolding activate_pending
  activate_pending_keeps s v =
      let (size, p) = nvs.put_uchar active_key s.pending_slot s.preferences in
      unless_both
        (λ (r : Bool × PreferencesConfigStore P).
          r.0 ≡ false → IsSlots r.1 × (active_config nvs r.1 ≡ active_config nvs s))
        (size == 1)
        (λ _ _.
          kept (record s { preferences = p }) s refl refl v
            (doc.put_uchar_keeps _ _ _ s.preferences (slot_key-ne-active_key s.active_slot)))
        (λ _ h. absurd (cc h))
