-- ===== src/Transaction/Contract.antt =====
-- config_transaction.h: what `applyDeviceConfig` needs of a store. The view is the configuration in
-- use, and a state satisfies an invariant that every call keeps.
use qh_voice_kit.Base.{true, false, ◌≡◌, Option, some, []}
use qh_voice_kit.Config.{DeviceConfig, validate_device_config}
use qh_voice_kit.Transaction.{ConfigStore}

pub record Contract {S : Type 0} (store : ConfigStore S) : Type 1 where
  pub active : S → Option DeviceConfig
  pub Valid : S → Type 0
  -- The configurations that the store can hold.
  pub Storable : DeviceConfig → Type 0
  pub write_keeps :
      (c : DeviceConfig) (s : S)
      → Valid s
      → Valid (store.write_pending c s).1 × (active (store.write_pending c s).1 ≡ active s)
  pub match_keeps :
      (c : DeviceConfig) (s : S)
      → Valid s
      → Valid (store.pending_matches c s).1 × (active (store.pending_matches c s).1 ≡ active s)
  pub discard_keeps :
      (s : S)
      → Valid s
      → Valid (store.discard_pending s) × (active (store.discard_pending s) ≡ active s)
  pub activate_keeps :
      (s : S)
      → Valid s
      → (store.activate_pending s).0 ≡ false
      → Valid (store.activate_pending s).1 × (active (store.activate_pending s).1 ≡ active s)
  -- Three successful calls in a row put a valid configuration to use.
  pub activates :
      (c : DeviceConfig) (s : S)
      → Valid s
      → Storable c
      → validate_device_config c ≡ []
      → let s1 = (store.write_pending c s).1 in
        let s2 = (store.pending_matches c s1).1 in
        let s3 = (store.activate_pending s2).1 in
        (store.write_pending c s).0 ≡ true
        → (store.pending_matches c s1).0 ≡ true
        → (store.activate_pending s2).0 ≡ true
        → Valid s3 × (active s3 ≡ some c)
