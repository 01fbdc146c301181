-- ===== src/Preferences/Activation.antt =====
-- preferences_config_store.h: `activatePending` behind a successful `pendingMatches`.
use qh_voice_kit.Base.{
  ℕ, ◌≤◌, ◌≡◌, ◌∙◌, ap, Bool, true, ◌⊎◌, some, [], length, arith, ◌==◌, if◌then◌else◌, unless_both,
}
use qh_voice_kit.Base.Bytes.{Bytes, bytes_eq_iff}
use qh_voice_kit.Config.{DeviceConfig, validate_device_config}
use qh_voice_kit.Preferences.{
  NvsLibrary, PreferencesConfigStore, slot_key, active_key, pending_matches, activate_pending,
  active_config,
}
use qh_voice_kit.Preferences.Nvs.{Documented}
use qh_voice_kit.Preferences.Slots.{IsSlots, active_config-some, slot_key-ne-active_key}
use qh_voice_kit.Wire.{encode_device_config_wire, maximum_wire_bytes}

abbrev other_slot : ℕ → ℕ
other_slot b = if b == 0 then 1 else 0

slots_swapped :
    (a b : ℕ)
    → ((a ≡ 0) × (b ≡ 1)) ⊎ ((a ≡ 1) × (b ≡ 0))
    → ((b ≡ 0) × (other_slot b ≡ 1)) ⊎ ((b ≡ 1) × (other_slot b ≡ 0))
slots_swapped a b h = ground arith

module _ {P : Type 0} (nvs : NvsLibrary P) (doc : Documented nvs) where
  -- The storage holds the bytes that were to be written.
  pub IsWritten : PreferencesConfigStore P → Type 0
  IsWritten s =
      let size = nvs.get_bytes_length (slot_key s.pending_slot) s.preferences in
      (size ≡ length s.pending)
      × (nvs.get_bytes (slot_key s.pending_slot) size s.preferences ≡ s.pending)

  pub pending_matches-IsWritten :
      (c : DeviceConfig) (s : PreferencesConfigStore P)
      → (pending_matches nvs c s).0 ≡ true
      → IsWritten s
  unfolding pending_matches IsWritten
  pending_matches-IsWritten c s =
      let size = nvs.get_bytes_length (slot_key s.pending_slot) s.preferences in
      let stored = nvs.get_bytes (slot_key s.pending_slot) size s.preferences in
      unless_both (λ (r : Bool × PreferencesConfigStore P). r.0 ≡ true → IsWritten s)
        (size == length s.pending) (λ _ h. absurd (cc h))
        (λ fits h. ground (arith, bytes_eq_iff stored s.pending))

  -- Activation puts what is stored in the pending slot to use.
  pub activate_pending-some :
      (c : DeviceConfig) (s : PreferencesConfigStore P)
      → IsSlots s
      → validate_device_config c ≡ []
      → length (encode_device_config_wire c) ≤ maximum_wire_bytes
      → s.pending ≡ encode_device_config_wire c
      → IsWritten s
      → (activate_pending nvs s).0 ≡ true
      → IsSlots (activate_pending nvs s).1 × (active_config nvs (activate_pending nvs s).1 ≡ some c)
  unfolding activate_pending IsWritten
  activate_pending-some c s v hc hn hp (hl, hb) =
      let key = slot_key s.pending_slot in
      let (size, p) = nvs.put_uchar active_key s.pending_slot s.preferences in
      let e =
        doc.put_uchar_keeps key active_key s.pending_slot s.preferences
          (slot_key-ne-active_key s.pending_slot) in
      unless_both
        (λ (r : Bool × PreferencesConfigStore P).
          r.0 ≡ true → IsSlots r.1 × (active_config nvs r.1 ≡ some c))
        (size == 1) (λ _ h. absurd (cc h))
        (λ _ _. (
          slots_swapped s.active_slot s.pending_slot v,
          active_config-some nvs doc c _ hc hn
              (e.same_length ∙ hl ∙ ap (λ (b : Bytes). length b) hp)
              (ap (λ n. nvs.get_bytes key n p) e.same_length ∙ e.same_bytes _ ∙ hb ∙ hp),
        ))
