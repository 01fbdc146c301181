-- ===== src/Wire/Sound.antt =====
-- device_config_wire.h: what an accepted input is made of.
use mathlib.Core.List.{append-nil, append_assoc}
use qh_voice_kit.Base.{
  ℕ, zero, suc, ◌+◌, ◌*◌, ◌≤◌, ◌<◌, bit_or, Bool, true, List, [], ◌∷◌, ◌++◌, ◌≡◌, refl, sym, ◌∙◌,
  ap, arith, length, length-take, take-append-drop, All-drop, All, take, drop, get_or,
}
use qh_voice_kit.Base.Bytes.{Bytes, IsBytes, bytes_eq, bytes_eq_iff, codes}
use qh_voice_kit.Base.Bits.{bit_or_disjoint}
use qh_voice_kit.Base.Words.{◌<<<◌}
use qh_voice_kit.Config.{DeviceConfig, validate_device_config}
use qh_voice_kit.Config.Validate.{IsValid, validate_device_config-eq-nil_iff}
use qh_voice_kit.Wire.{
  Progress, Decoded, done, failed, ◌>>=◌, maximum_wire_bytes, wire_version, decode_field,
  decode_fields, fresh_progress, finish_decode, all_seen, decode_device_config_wire,
}
use qh_voice_kit.Wire.Fields.{Field, Fits, apply_field, apply_fields, encode_field, encode_fields}

pub bind-eq-done :
    {A B : Type 0} (m : Decoded A) (f : A → Decoded B) {b : B}
    → (m >>= f) ≡ done b
    → (a : A) × (m ≡ done a) × (f a ≡ done b)
bind-eq-done (done a) f h = (a, refl, h)
bind-eq-done (failed e) f h = cc

-- What the tests of the decoder have established when it returns a configuration.
pub decode-inv :
    (is_null : Bool) (input : Bytes) {c : DeviceConfig}
    → decode_device_config_wire is_null input ≡ done c
    → ((6 ≤ length input) × (length input ≤ maximum_wire_bytes))
      × (bytes_eq (take 4 input) (codes "QHVC") ≡ true)
      × (get_or input 4 0 ≡ wire_version)
      × ((decode_fields (get_or input 5 0) fresh_progress (drop 6 input) >>= λ r.
            finish_decode r.0 r.1)
          ≡ done c)
unfolding decode_device_config_wire
decode-inv is_null input h =
    ((ground arith, ground arith), ground arith, ground arith, ground arith)

-- The end of the decoder passes on a configuration that is valid, with every field seen and
-- nothing left.
pub finish_decode-inv :
    (p : Progress) (input : Bytes) {c : DeviceConfig}
    → finish_decode p input ≡ done c
    → (input ≡ [])
      × (all_seen (drop 1 p.seen) ≡ true)
      × (validate_device_config c ≡ [])
      × (p.config ≡ c)
unfolding finish_decode
finish_decode-inv p input h = (ground arith, ground arith, ground arith, ground arith)

decode_field-inv :
    (id n : ℕ) (p q : Progress) (input left : Bytes)
    → decode_field id n p input ≡ done (q, left)
    → (n ≤ length input) × (left ≡ drop n input) × (apply_field p (id, take n input) ≡ done q)
unfolding decode_field apply_field
decode_field-inv id n p q input left h = (ground arith, ground arith, ground arith)

-- An input in front of `left` that is made of the fields of a list.
pub record Parsed (rounds : ℕ) (p q : Progress) (input left : Bytes) : Type 0 where
  pub fields : List Field
  pub count : length fields ≡ rounds
  pub fit : All Fits fields
  pub text : input ≡ encode_fields fields ++ left
  pub effect : apply_fields p fields ≡ done q

-- The three bytes in front of a value say its identifier and length.
field_text :
    (id high low : ℕ) (input : Bytes)
    → id < 256
    → high < 256
    → low < 256
    → let n = bit_or (high <<< 8) low in
      n ≤ length input
      → (id ∷ high ∷ low ∷ input ≡ encode_field (id, take n input) ++ drop n input)
        × Fits (id, take n input)
field_text id high low input hid hh hl le =
    let n = bit_or (high <<< 8) low in
    let size : bit_or (high <<< 8) low ≡ high * 256 + low = bit_or_disjoint 8 high low hl in
    let full : length (take n input) ≡ n = omega (arith, length-take n input) in
    (ground (arith, full, size, take-append-drop n input), (hid, omega (arith, full, size)))

-- A field in front of a parsed input.
Parsed-cons :
    {rounds : ℕ} {p r q : Progress} (f : Field) {input middle left : Bytes}
    → Fits f
    → input ≡ encode_field f ++ middle
    → apply_field p f ≡ done r
    → Parsed rounds r q middle left
    → Parsed (suc rounds) p q input left
unfolding encode_fields apply_fields
Parsed-cons f {left = left} fits text effect rest = record {
  fields = f ∷ rest.fields;
  count = omega (arith, rest.count);
  fit = (fits, rest.fit);
  text =
      text
      ∙ ap (λ (s : Bytes). encode_field f ++ s) rest.text
      ∙ sym (append_assoc (encode_field f) (encode_fields rest.fields) left);
  effect = rw effect rest.effect;
}

decode_fields-Parsed :
    (rounds : ℕ) (p q : Progress) (input left : Bytes)
    → IsBytes input
    → decode_fields rounds p input ≡ done (q, left)
    → Parsed rounds p q input left
unfolding decode_fields
decode_fields-Parsed zero p q input left b h = record {
  fields = [];
  count = refl;
  fit = tt;
  text = unfold encode_fields in (ground arith);
  effect = unfold apply_fields in (ground arith);
}
decode_fields-Parsed (suc rounds) p q [] left b h = cc
decode_fields-Parsed (suc rounds) p q (x ∷ []) left b h = cc
decode_fields-Parsed (suc rounds) p q (x ∷ y ∷ []) left b h = cc
decode_fields-Parsed (suc rounds) p q (id ∷ high ∷ low ∷ input) left (hid, (hh, (hl, b))) h =
    let n = bit_or (high <<< 8) low in
    let (r, one, later) =
      bind-eq-done (decode_field id n p input) (λ r. decode_fields rounds r.0 r.1) h in
    let (le, left_is, effect) = decode_field-inv id n p r.0 input r.1 one in
    let (text, fits) = field_text id high low input hid hh hl le in
    let rest =
      decode_fields-Parsed rounds r.0 q r.1 left (rw left_is (All-drop (λ c. c < 256) n input b))
        later in
    Parsed-cons (id, take n input) fits
      (text ∙ ap (λ (s : Bytes). encode_field (id, take n input) ++ s) (sym left_is)) effect rest

-- What the header of an accepted input says, and the fields behind it.
pub record Accepted (input : Bytes) (c : DeviceConfig) : Type 0 where
  pub header : 6 ≤ length input
  pub size : length input ≤ maximum_wire_bytes
  pub magic : take 4 input ≡ codes "QHVC"
  pub version : get_or input 4 0 ≡ wire_version
  pub fields : List Field
  pub fit : All Fits fields
  pub text : drop 6 input ≡ encode_fields fields
  pub count : length fields ≡ get_or input 5 0
  pub seen : List Bool
  pub effect : apply_fields fresh_progress fields ≡ done (record { config = c; seen = seen })
  pub complete : all_seen (drop 1 seen) ≡ true
  pub valid : IsValid c

-- An accepted input has at most 8192 bytes, the magic and the version, and then exactly as many
-- fields as it says and nothing more; these fill the configuration, leave no field out, and the
-- configuration is valid.
pub decode-Accepted :
    (is_null : Bool) (input : Bytes) {c : DeviceConfig}
    → IsBytes input
    → decode_device_config_wire is_null input ≡ done c
    → Accepted input c
decode-Accepted is_null input {c} b h =
    let ((header, size), magic, version, run) = decode-inv is_null input h in
    let (r, loop, end) = bind-eq-done _ (λ r. finish_decode r.0 r.1) run in
    let (none_left, complete, valid, config) = finish_decode-inv r.0 r.1 end in
    let parsed =
      decode_fields-Parsed _ fresh_progress r.0 (drop 6 input) r.1
        (All-drop (λ x. x < 256) 6 input b) loop in
    record {
      header = header;
      size = size;
      magic = (bytes_eq_iff _ _).0 magic;
      version = version;
      fields = parsed.fields;
      fit = parsed.fit;
      text = parsed.text ∙ rw none_left (append-nil _);
      count = parsed.count;
      seen = r.0.seen;
      effect =
          parsed.effect
          ∙ ap (λ (d : DeviceConfig). done (record { config = d; seen = r.0.seen })) config;
      complete = complete;
      valid = (validate_device_config-eq-nil_iff c).0 valid;
    }
