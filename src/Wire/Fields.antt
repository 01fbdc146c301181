-- ===== src/Wire/Fields.antt =====
-- device_config_wire.h: a sequence of fields apart from its bytes, and the decoder's loop over it.
use mathlib.Core.List.{append_assoc}
use mathlib.Core.Path.{fun_ext}
use qh_voice_kit.Base.{
  ℕ, suc, ◌/◌, ◌%◌, ◌^◌, ◌<◌, bit_or, true, false, ◌||◌, List, [], ◌∷◌, ◌++◌, ◌≡◌, refl, sym, ◌∙◌,
  ap, arith, ltb, ◌==◌, if◌then◌else◌, length, length-append, take-append, drop-append, get_or, set,
  All,
}
use qh_voice_kit.Base.Bits.{bit_or_disjoint}
use qh_voice_kit.Base.Bytes.{Bytes}
use qh_voice_kit.Base.Words.{◌<<<◌, ◌>>>◌, u8}
use qh_voice_kit.Wire.{
  Progress, Decoded, done, failed, ◌>>=◌, unknown_field, duplicate_field, wire_field_count,
  store_field, decode_field, decode_fields,
}

-- An identifier and a value.
abbrev pub Field : Type 0
Field = ℕ × Bytes

-- A field that fits its two length bytes, with an identifier that fits its byte.
abbrev pub Fits : Field → Type 0
Fits f = (f.0 < 256) × (length f.1 < 65536)

-- What a field does to the decoder, whatever its bytes.
unfoldable pub apply_field : Progress → Field → Decoded Progress
apply_field p (id, value) =
    if id == 0 || ltb wire_field_count id
    then failed unknown_field
    else if get_or p.seen id false
    then failed duplicate_field
    else store_field id value p.config >>= λ c.
        done (record { config = c; seen = set p.seen id true })

unfoldable pub apply_fields : Progress → List Field → Decoded Progress
apply_fields p [] = done p
apply_fields p (f ∷ fs) = apply_field p f >>= λ q. apply_fields q fs

abbrev pub encode_field : Field → Bytes
encode_field (id, value) = u8 id ∷ u8 (length value >>> 8) ∷ u8 (length value) ∷ value

unfoldable pub encode_fields : List Field → Bytes
encode_fields [] = []
encode_fields (f ∷ fs) = encode_field f ++ encode_fields fs

length_bytes : (n : ℕ) → n < 65536 → bit_or (u8 (n >>> 8) <<< 8) (u8 n) ≡ n
length_bytes n h = bit_or_disjoint 8 (n / 256 % 256) (n % 256) (omega arith) ∙ omega arith

decode_field-append :
    (p : Progress) (id : ℕ) (value rest : Bytes)
    → decode_field id (length value) p (value ++ rest)
      ≡ (apply_field p (id, value) >>= λ q. done (q, rest))
unfolding decode_field apply_field
decode_field-append p id value rest =
    rw (take-append value rest, drop-append value rest) (ground (arith, length-append value rest))

pub >>=_assoc :
    {A B C : Type 0} (m : Decoded A) (f : A → Decoded B) (g : B → Decoded C)
    → ((m >>= f) >>= g) ≡ (m >>= λ a. f a >>= g)
>>=_assoc (done a) f g = refl
>>=_assoc (failed e) f g = refl

decode_fields-cons :
    (rounds : ℕ) (p : Progress) (f : Field) (rest : Bytes)
    → Fits f
    → decode_fields (suc rounds) p (encode_field f ++ rest)
      ≡ (apply_field p f >>= λ q. decode_fields rounds q rest)
unfolding decode_fields
decode_fields-cons rounds p (id, value) rest (hid, hlen) = rw (length_bytes (length value) hlen) (
    rw (let e : id % 2 ^ 8 ≡ id = omega arith in e)
      (rw decode_field-append (>>=_assoc (apply_field p (id, value)) (λ q. done (q, rest)) _)))

-- On the bytes of fields that fit, the loop does what the fields do, and leaves what follows them.
pub decode_fields-encode_fields :
    (fs : List Field) (p : Progress) (rest : Bytes)
    → All Fits fs
    → decode_fields (length fs) p (encode_fields fs ++ rest)
      ≡ (apply_fields p fs >>= λ q. done (q, rest))
unfolding apply_fields encode_fields
decode_fields-encode_fields [] p rest h = unfold decode_fields in refl
decode_fields-encode_fields (f ∷ fs) p rest (hf, h) =
    ap (decode_fields (suc (length fs)) p) (append_assoc (encode_field f) (encode_fields fs) rest)
    ∙ decode_fields-cons (length fs) p f (encode_fields fs ++ rest) hf
    ∙ ap (λ k. apply_field p f >>= k) (fun_ext (λ q. decode_fields-encode_fields fs q rest h))
    ∙ sym (>>=_assoc (apply_field p f) (λ q. apply_fields q fs) (λ q. done (q, rest)))
