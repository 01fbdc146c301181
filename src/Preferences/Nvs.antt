-- ===== src/Preferences/Nvs.antt =====
-- What the platform documents of `Preferences`: an entry is changed by calls on its own key alone,
-- and a byte that was put is the one that is got.
use qh_voice_kit.Base.{ℕ, ◌≡◌, ◌≢◌}
use qh_voice_kit.Base.Bytes.{Bytes}
use qh_voice_kit.Preferences.{NvsLibrary}

-- Two states of the storage hold the same under a key.
pub record SameEntry {P : Type 0} (nvs : NvsLibrary P) (key : Bytes) (p q : P) : Type 0 where
  pub same_length : nvs.get_bytes_length key p ≡ nvs.get_bytes_length key q
  pub same_bytes : (n : ℕ) → nvs.get_bytes key n p ≡ nvs.get_bytes key n q
  pub same_uchar : (d : ℕ) → nvs.get_uchar key d p ≡ nvs.get_uchar key d q

pub record Documented {P : Type 0} (nvs : NvsLibrary P) : Type 0 where
  pub put_bytes_keeps :
      (key other value : Bytes) (p : P)
      → key ≢ other
      → SameEntry nvs key (nvs.put_bytes other value p).1 p
  pub put_uchar_keeps :
      (key other : Bytes) (value : ℕ) (p : P)
      → key ≢ other
      → SameEntry nvs key (nvs.put_uchar other value p).1 p
  pub remove_keeps :
      (key other : Bytes) (p : P) → key ≢ other → SameEntry nvs key (nvs.remove other p) p
  pub put_uchar_reads :
      (key : Bytes) (value d : ℕ) (p : P)
      → (nvs.put_uchar key value p).0 ≡ 1
      → nvs.get_uchar key d (nvs.put_uchar key value p).1 ≡ value
  pub begin_keeps : (key : Bytes) (p : P) → SameEntry nvs key (nvs.nvs_begin p).1 p
