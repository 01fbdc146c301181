-- ===== src/Preferences/Restart.antt =====
-- preferences_config_store.h: what a restarted program finds in the storage.
use qh_voice_kit.Base.{
  ℕ, ◌≡◌, ◌∙◌, sym, refl, ap, Bool, true, Option, none, ◌⊎◌, inl, inr, some, arith, ◌==◌, leb,
  if◌then◌else◌, unless_both, ==_iff,
}
use qh_voice_kit.Config.{DeviceConfig, validate_device_config, ok}
use qh_voice_kit.Preferences.{
  NvsLibrary, PreferencesConfigStore, slot_key, active_key, begin_store, new_store, write_pending,
  discard_pending, pending_matches, activate_pending, active_config, preferences_config_store,
}
use qh_voice_kit.Preferences.Nvs.{Documented}
use qh_voice_kit.Preferences.Slots.{
  IsSlots, active_config-SameEntry, slot_key-ne-active_key, write_pending_keeps,
  discard_pending_keeps,
}
use qh_voice_kit.Preferences.Store.{FitsStore, preferences_contract}
use qh_voice_kit.Transaction.{ConfigApplyResult, apply_device_config, applied}
use qh_voice_kit.Transaction.Atomic.{apply_device_config-Changes}

-- The storage names the slot in use.
abbrev pub IsRecorded : {P : Type 0} → NvsLibrary P → PreferencesConfigStore P → Type 0
IsRecorded nvs s = nvs.get_uchar active_key 0 s.preferences ≡ s.active_slot

-- The storage names the slot in use, as `begin` reads it: a number above 1 stands for the slot 0.
abbrev pub IsNamed : {P : Type 0} → NvsLibrary P → PreferencesConfigStore P → Type 0
IsNamed nvs s =
    let n = nvs.get_uchar active_key 0 s.preferences in (if leb n 1 then n else 0) ≡ s.active_slot

module _ {P : Type 0} (nvs : NvsLibrary P) where
  -- The configuration that a new store object finds, or none when the storage does not open.
  unfoldable pub restarted : P → Option DeviceConfig
  unfolding begin_store
  restarted p =
      let (opened, s) = begin_store nvs (new_store p) in
      if opened then active_config nvs s else none

named :
    {n a b : ℕ} → n ≡ a → ((a ≡ 0) × (b ≡ 1)) ⊎ ((a ≡ 1) × (b ≡ 0)) → (if leb n 1 then n else 0) ≡ a
named h v = ground arith

module _ {P : Type 0} (nvs : NvsLibrary P) (doc : Documented nvs) where
  restarted-IsNamed :
      (s : PreferencesConfigStore P)
      → IsNamed nvs s
      → (nvs.nvs_begin s.preferences).0 ≡ true
      → restarted nvs s.preferences ≡ active_config nvs s
  unfolding restarted begin_store
  restarted-IsNamed s r h =
      let active =
        ap (λ n. if leb n 1 then n else 0) ((doc.begin_keeps active_key s.preferences).same_uchar 0)
        ∙ r in
      rw (h, restarted)
        (active_config-SameEntry nvs doc _ s active
          (doc.begin_keeps (slot_key s.active_slot) s.preferences))

  activate_pending-IsRecorded :
      (s : PreferencesConfigStore P)
      → (activate_pending nvs s).0 ≡ true
      → IsRecorded nvs (activate_pending nvs s).1
  unfolding activate_pending
  activate_pending-IsRecorded s =
      let (size, p) = nvs.put_uchar active_key s.pending_slot s.preferences in
      unless_both (λ (r : Bool × PreferencesConfigStore P). r.0 ≡ true → IsRecorded nvs r.1)
        (size == 1) (λ _ h. absurd (cc h))
        (λ one _.
          doc.put_uchar_reads active_key s.pending_slot 0 s.preferences ((==_iff size 1).0 one))

  apply_device_config-IsRecorded :
      (c : DeviceConfig) (s : PreferencesConfigStore P)
      → let r = apply_device_config (preferences_config_store nvs) c s in
        r.0 ≡ applied → IsRecorded nvs r.1
  unfolding apply_device_config
  apply_device_config-IsRecorded c s =
      let w = write_pending nvs c s in
      let m = pending_matches nvs c w.1 in
      let Recorded =
        λ (r : ConfigApplyResult × PreferencesConfigStore P). r.0 ≡ applied → IsRecorded nvs r.1 in
      unless_both Recorded (ok (validate_device_config c)) (λ _ h. absurd (cc h))
        (λ _.
          unless_both Recorded w.0 (λ _ h. absurd (cc h))
            (λ _.
              unless_both Recorded m.0 (λ _ h. absurd (cc h))
                (λ _.
                  unless_both Recorded (activate_pending nvs m.1).0 (λ _ h. absurd (cc h))
                    (λ active _. activate_pending-IsRecorded m.1 active))))

  -- When the storage is as documented and opens, and applying a configuration of at most 8192 bytes
  -- to the store returns `applied`, a program that restarts on the storage finds that
  -- configuration.
  pub restarted-apply_device_config :
      (c : DeviceConfig) (s : PreferencesConfigStore P)
      → IsSlots s
      → FitsStore c
      → let (result, after) = apply_device_config (preferences_config_store nvs) c s in
        result ≡ applied
        → (nvs.nvs_begin after.preferences).0 ≡ true
        → restarted nvs after.preferences ≡ some c
  unfolding preferences_contract
  restarted-apply_device_config c s v f h hb =
      let after = (apply_device_config (preferences_config_store nvs) c s).1 in
      let (va, changes) = apply_device_config-Changes _ (preferences_contract nvs doc) c s v f in
      let found = restarted-IsNamed after (named (apply_device_config-IsRecorded c s h) va) hb in
      elim changes [ inl new ↦ found ∙ new.2 | inr old ↦ absurd (old.0 h) ]

  -- A store that has begun is as it asks.
  begin_store-IsNamed :
      (s : PreferencesConfigStore P)
      → (begin_store nvs s).0 ≡ true
      → IsNamed nvs (begin_store nvs s).1
  unfolding begin_store
  begin_store-IsNamed s =
      unless_both (λ (r : Bool × PreferencesConfigStore P). r.0 ≡ true → IsNamed nvs r.1)
        (nvs.nvs_begin s.preferences).0 (λ _ h. absurd (cc h)) (λ _ _. refl)

  -- When the storage is as documented and opens, and it names the slot in use (a number above 1
  -- stands for the slot 0), a program that restarts after the bytes of a configuration were written
  -- to the pending slot, successfully or not, or were discarded, finds the configuration that was
  -- in use.
  pub restarted-write_pending :
      (c : DeviceConfig) (s : PreferencesConfigStore P)
      → IsSlots s
      → IsNamed nvs s
      → ((p : P) → (nvs.nvs_begin p).0 ≡ true)
      → let written = (write_pending nvs c s).1 in
        (restarted nvs written.preferences ≡ active_config nvs s)
        × (restarted nvs (discard_pending nvs written).preferences ≡ active_config nvs s)
  unfolding write_pending discard_pending
  restarted-write_pending c s v r opens =
      let written = (write_pending nvs c s).1 in
      let key = slot_key s.pending_slot in
      let elsewhere = λ (h : active_key ≡ key). slot_key-ne-active_key s.pending_slot (sym h) in
      let slot = λ (n : ℕ). if leb n 1 then n else 0 in
      let (vw, hw) = write_pending_keeps nvs doc c s v in
      let (vd, hd) = discard_pending_keeps nvs doc written vw in
      let ru =
        ap slot ((doc.put_bytes_keeps active_key key _ s.preferences elsewhere).same_uchar 0) ∙ r in
      let rd =
        ap slot ((doc.remove_keeps active_key key written.preferences elsewhere).same_uchar 0)
        ∙ ru in
      (
        restarted-IsNamed written ru (opens _) ∙ hw,
        restarted-IsNamed (discard_pending nvs written) rd (opens _) ∙ hd ∙ hw,
      )
