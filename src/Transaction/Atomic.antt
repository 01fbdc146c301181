-- ===== src/Transaction/Atomic.antt =====
-- config_transaction.h: `applyDeviceConfig` over any store that keeps the contract.
use qh_voice_kit.Base.{true, ◌≡◌, ◌≢◌, refl, ◌∙◌, ◌⊎◌, inl, inr, unless_both, some, List, [], ◌∷◌}
use qh_voice_kit.Config.{ConfigError, DeviceConfig, validate_device_config, ok}
use qh_voice_kit.Transaction.{
  ConfigStore, ConfigApplyResult, applied, write_failed, readback_mismatch, activation_failed,
  apply_device_config,
}
use qh_voice_kit.Transaction.Contract.{Contract}

ok_iff : {errors : List ConfigError} → ok errors ≡ true → errors ≡ []
ok_iff {errors = []} h = refl
ok_iff {errors = _ ∷ _} h = cc

module _ {S : Type 0} (store : ConfigStore S) (k : Contract store) where
  -- What a result and the state behind the call say of the configuration in use.
  abbrev pub Changes : DeviceConfig → S → ConfigApplyResult × S → Type 0
  Changes c s (result, after) =
      k.Valid after
      × (((result ≡ applied) × (validate_device_config c ≡ []) × (k.active after ≡ some c))
          ⊎ ((result ≢ applied) × (k.active after ≡ k.active s)))

  error_keeps :
      (c : DeviceConfig) (s before after : S) (r : ConfigApplyResult)
      → r ≢ applied
      → k.active before ≡ k.active s
      → k.Valid after × (k.active after ≡ k.active before)
      → Changes c s (r, after)
  error_keeps c s before after r ne h (v, same) = (v, inr (ne, same ∙ h))

  -- Over any store that keeps the contract, applying a configuration that it can hold either returns
  -- `applied`, and then the configuration is valid and in use, or returns an error, and then the
  -- configuration in use is the one from before; the store's invariant holds either way.
  pub apply_device_config-Changes :
      (c : DeviceConfig) (s : S)
      → k.Valid s
      → k.Storable c
      → Changes c s (apply_device_config store c s)
  unfolding apply_device_config
  apply_device_config-Changes c s v st =
      let w = store.write_pending c s in
      let m = store.pending_matches c w.1 in
      let a = store.activate_pending m.1 in
      let (vw, hw) = k.write_keeps c s v in
      let (vm, hm) = k.match_keeps c w.1 vw in
      unless_both (Changes c s) (ok (validate_device_config c)) (λ _. (v, inr (λ e. cc, refl)))
        (λ valid.
          unless_both (Changes c s) w.0
            (λ _. error_keeps c s w.1 _ write_failed (λ e. cc) hw (k.discard_keeps w.1 vw))
            (λ written.
              unless_both (Changes c s) m.0
                (λ _.
                  error_keeps c s m.1 _ readback_mismatch (λ e. cc) (hm ∙ hw)
                    (k.discard_keeps m.1 vm))
                (λ matches.
                  unless_both (Changes c s) a.0
                    (λ failed.
                      let (va, ha) = k.activate_keeps m.1 vm failed in
                      error_keeps c s a.1 _ activation_failed (λ e. cc) (ha ∙ hm ∙ hw)
                        (k.discard_keeps a.1 va))
                    (λ active.
                      let (va, ha) = k.activates c s v st (ok_iff valid) written matches active in
                      (va, inl (refl, ok_iff valid, ha))))))
