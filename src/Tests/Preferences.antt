-- ===== src/Tests/Preferences.antt =====
-- config_transaction.h and preferences_config_store.h over a storage that is a pair of functions.
use qh_voice_kit.Base.{
  ℕ, ◌≡◌, ◌≢◌, refl, inl, true, false, Option, none, some, [], length, leb, arith, if◌then◌else◌,
  ap,
}
use qh_voice_kit.Base.Bytes.{Bytes, bytes_eq, bytes_eq_iff}
use qh_voice_kit.Base.Decimal.{to_decimal}
use qh_voice_kit.Base.Search.{find_first, find_last}
use qh_voice_kit.Config.{validate_device_config, qh_sync_fault, is_https_endpoint}
use qh_voice_kit.Endpoint.{parse_secure_endpoint, split_authority, finish_endpoint, parse_port}
use qh_voice_kit.Wire.{encode_device_config_wire, append_config_field}
use qh_voice_kit.Preferences.{
  NvsLibrary, PreferencesConfigStore, new_store, preferences_config_store, write_pending,
  pending_matches, activate_pending, discard_pending, active_config, slot_key,
}
use qh_voice_kit.Preferences.Nvs.{Documented, SameEntry}
use qh_voice_kit.Preferences.Store.{preferences_contract}
use qh_voice_kit.Preferences.Restart.{
  restarted, restarted-apply_device_config, restarted-write_pending,
}
use qh_voice_kit.Tests.Config.{home}
use qh_voice_kit.Tests.Wire.{small}
use qh_voice_kit.Transaction.{apply_device_config, applied}
use qh_voice_kit.Transaction.Atomic.{Changes, apply_device_config-Changes}

record Flash : Type 0 where
  blob : Bytes → Bytes
  uchar : Bytes → Option ℕ

abbrev updated : {A : Type 0} → Bytes → A → (Bytes → A) → Bytes → A
updated key value f k = if bytes_eq k key then value else f k

abbrev or_default : Option ℕ → ℕ → ℕ
or_default none d = d
or_default (some n) d = n

abbrev flash : NvsLibrary Flash
flash = record {
  nvs_begin = λ p. (true, p);
  put_bytes = λ key value p. (length value, record p { blob = updated key value p.blob });
  get_bytes_length = λ key p. length (p.blob key);
  get_bytes = λ key n p. if leb (length (p.blob key)) n then p.blob key else [];
  put_uchar = λ key value p. (1, record p { uchar = updated key (some value) p.uchar });
  get_uchar = λ key d p. or_default (p.uchar key) d;
  remove = λ key p. record { blob = updated key [] p.blob; uchar = updated key none p.uchar };
}

bytes_eq_refl : (key : Bytes) → bytes_eq key key ≡ true
bytes_eq_refl key = (bytes_eq_iff key key).1 refl

bytes_eq_ne : (key other : Bytes) → key ≢ other → bytes_eq key other ≡ false
bytes_eq_ne key other h = ground (arith, bytes_eq_iff key other)

updated_other :
    {A : Type 0} (key other : Bytes) (value : A) (f : Bytes → A)
    → key ≢ other
    → updated other value f key ≡ f key
updated_other key other value f h = rw (bytes_eq_ne key other h) refl

-- Two states with the same bytes and number under a key.
same_entry :
    (key : Bytes) (p q : Flash)
    → p.blob key ≡ q.blob key
    → p.uchar key ≡ q.uchar key
    → SameEntry flash key p q
same_entry key p q hb hu = record {
  same_length = ap (λ (b : Bytes). length b) hb;
  same_bytes = λ n. ap (λ (b : Bytes). if leb (length b) n then b else []) hb;
  same_uchar = λ d. ap (λ u. or_default u d) hu;
}

flash-Documented : Documented flash
flash-Documented = record {
  put_bytes_keeps =
      λ key other value p h. same_entry key _ p (updated_other key other value p.blob h) refl;
  put_uchar_keeps = λ key other value p h.
      same_entry key _ p refl (updated_other key other (some value) p.uchar h);
  remove_keeps = λ key other p h.
      same_entry key _ p (updated_other key other [] p.blob h)
        (updated_other key other none p.uchar h);
  put_uchar_reads = λ key value d p h. rw (bytes_eq_refl key) refl;
  begin_keeps = λ key p. same_entry key p p refl refl;
}

-- A device that was never configured.
abbrev blank : PreferencesConfigStore Flash
blank = new_store (record { blob = λ _. []; uchar = λ _. none })

abbrev configured : PreferencesConfigStore Flash
configured = (apply_device_config (preferences_config_store flash) home blank).1

-- A configuration is stored, and a restarted program finds it.
stores : (apply_device_config (preferences_config_store flash) home blank).0 ≡ applied
unfolding apply_device_config write_pending pending_matches activate_pending validate_device_config
    qh_sync_fault is_https_endpoint parse_secure_endpoint find_first find_last bytes_eq
    split_authority finish_endpoint parse_port encode_device_config_wire append_config_field
    to_decimal slot_key
stores = refl

apply_device_config-Changes_example :
    Changes
      (preferences_config_store flash)
      (preferences_contract flash flash-Documented)
      home
      blank
      (apply_device_config (preferences_config_store flash) home blank)
unfolding preferences_contract
apply_device_config-Changes_example =
    apply_device_config-Changes (preferences_config_store flash)
      (preferences_contract flash flash-Documented) home blank (inl (refl, refl)) small

restarted-apply_device_config_example : restarted flash configured.preferences ≡ some home
restarted-apply_device_config_example =
    restarted-apply_device_config flash flash-Documented home blank (inl (refl, refl)) small stores
      refl

restarted-write_pending_example :
    let written = (write_pending flash home blank).1 in
    (restarted flash written.preferences ≡ active_config flash blank)
    × (restarted flash (discard_pending flash written).preferences ≡ active_config flash blank)
restarted-write_pending_example =
    restarted-write_pending flash flash-Documented home blank (inl (refl, refl)) refl (λ p. refl)
