-- ===== src/Wire/Count.antt =====
-- device_config_wire.h: an accepted input has each of the thirteen fields exactly once.
use qh_voice_kit.Base.{
  ℕ, zero, suc, ◌+◌, ◌≤◌, ◌<◌, Bool, true, false, List, [], ◌∷◌, ◌≡◌, refl, ◌∙◌, ap, arith,
  if◌then◌else◌, length, drop, get_or, set,
}
use qh_voice_kit.Base.Bytes.{Bytes, IsBytes}
use qh_voice_kit.Config.{DeviceConfig}
use qh_voice_kit.Wire.{Progress, done, all_seen, fresh_progress, decode_device_config_wire}
use qh_voice_kit.Wire.Fields.{Field, apply_field, apply_fields}
use qh_voice_kit.Wire.Sound.{decode-Accepted, bind-eq-done}

-- How many flags are set.
abbrev flags_set : List Bool → ℕ
flags_set [] = 0
flags_set (b ∷ bs) = (if b then 1 else 0) + flags_set bs

flags_set-set :
    (bs : List Bool) (i : ℕ)
    → i < length bs
    → get_or bs i false ≡ false
    → (flags_set (set bs i true) ≡ flags_set bs + 1) × (length (set bs i true) ≡ length bs)
flags_set-set [] i h e = absurd (omega arith)
flags_set-set (b ∷ bs) zero h e = ground arith
flags_set-set (b ∷ bs) (suc i) h e = omega (arith, flags_set-set bs i (omega arith) e)

flags_set-all_seen : (bs : List Bool) → all_seen bs ≡ true → flags_set bs ≡ length bs
unfolding all_seen
flags_set-all_seen [] h = refl
flags_set-all_seen (true ∷ bs) h = omega (arith, flags_set-all_seen bs h)
flags_set-all_seen (false ∷ bs) h = cc

-- A field that is accepted has an identifier from 1 to 13 that was not seen, and is seen then.
apply_field-seen :
    (p q : Progress) (f : Field)
    → apply_field p f ≡ done q
    → (1 ≤ f.0) × (f.0 ≤ 13) × (get_or p.seen f.0 false ≡ false) × (q.seen ≡ set p.seen f.0 true)
unfolding apply_field
apply_field-seen p q (id, value) h = (ground arith, ground arith, ground arith, ground arith)

first-set : (bs : List Bool) (i : ℕ) → 1 ≤ i → get_or (set bs i true) 0 false ≡ get_or bs 0 false
first-set [] i h = refl
first-set (b ∷ bs) zero h = absurd (omega arith)
first-set (b ∷ bs) (suc i) h = refl

fields_counted :
    (fs : List Field) (p q : Progress)
    → length p.seen ≡ 14
    → apply_fields p fs ≡ done q
    → (length q.seen ≡ 14)
      × (flags_set q.seen ≡ flags_set p.seen + length fs)
      × (get_or q.seen 0 false ≡ get_or p.seen 0 false)
unfolding apply_fields
fields_counted [] p q n h = (ground arith, ground arith, ground arith)
fields_counted (f ∷ fs) p q n h =
    let (r, one, later) = bind-eq-done (apply_field p f) (λ x. apply_fields x fs) h in
    let (lo, hi, new, now) = apply_field-seen p r f one in
    let (more, same) = flags_set-set p.seen f.0 (omega arith) new in
    let (len, count, first) = fields_counted fs r q (ap length now ∙ same ∙ n) later in
    (
      len,
      omega (arith, count, more, ap flags_set now),
      first ∙ ap (λ (s : List Bool). get_or s 0 false) now ∙ first-set p.seen f.0 lo,
    )

-- With every flag but the first set, thirteen are.
flags_full :
    (bs : List Bool)
    → length bs ≡ 14
    → get_or bs 0 false ≡ false
    → all_seen (drop 1 bs) ≡ true
    → flags_set bs ≡ 13
flags_full [] n z h = absurd (omega arith)
flags_full (b ∷ bs) n z h = ground (arith, flags_set-all_seen bs h)

-- The header of an accepted input announces exactly thirteen fields.
pub decode-field_count :
    (is_null : Bool) (input : Bytes) {c : DeviceConfig}
    → IsBytes input
    → (h : decode_device_config_wire is_null input ≡ done c) → get_or input 5 0 ≡ 13
decode-field_count is_null input b h =
    let a = decode-Accepted is_null input b h in
    let (len, count, first) = fields_counted a.fields fresh_progress _ refl a.effect in
    omega (arith, a.count, count, flags_full a.seen len first a.complete)
