-- ===== src/Transaction.antt =====
-- firmware/esp32_voice_kit/config_transaction.h: a configuration is written to a store, read back
-- and activated. `ConfigStore` is the abstract class; a store's state is passed through its calls.
-- Children: what a store promises, and that the configuration in use changes as a whole.
pub mod Contract
pub mod Atomic
use qh_voice_kit.Base.{Bool, not, if◌then◌else◌}
use qh_voice_kit.Config.{DeviceConfig, validate_device_config, ok}

pub record ConfigStore (S : Type 0) : Type 0 where
  pub write_pending : DeviceConfig → S → Bool × S
  pub pending_matches : DeviceConfig → S → Bool × S
  pub activate_pending : S → Bool × S
  pub discard_pending : S → S

pub data ConfigApplyResult : Type 0 where
  applied invalid_config write_failed readback_mismatch activation_failed : ConfigApplyResult

unfoldable pub apply_device_config :
    {S : Type 0} → ConfigStore S → DeviceConfig → S → ConfigApplyResult × S
apply_device_config store config s =
    if not (ok (validate_device_config config))
    then (invalid_config, s)
    else let (written, s1) = store.write_pending config s in
      if not written
      then (write_failed, store.discard_pending s1)
      else let (matches, s2) = store.pending_matches config s1 in
        if not matches
        then (readback_mismatch, store.discard_pending s2)
        else let (active, s3) = store.activate_pending s2 in
          if not active then (activation_failed, store.discard_pending s3) else (applied, s3)
