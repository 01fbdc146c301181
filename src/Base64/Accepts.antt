-- ===== src/Base64/Accepts.antt =====
-- realtime_voice_protocol.h: which texts `decodeBase64` accepts, on every branch.
use qh_voice_kit.Base.{
  ℕ, ◌%◌, ◌<◌, Bool, true, false, ◌&&◌, Option, none, some, [], ◌∷◌, ◌++◌, ◌≡◌, refl, ◌↔◌, inl, inr,
  sym, ◌∙◌, ap, arith, ltb, ◌==◌, length, Bool-cases, Option-cases,
}
use qh_voice_kit.Base.Bytes.{Bytes, is_empty}
use qh_voice_kit.Base.Tables.{all_below, all_below→at}
use qh_voice_kit.Base64.{letter, base64_value, decoded, decode_block, decode_from, decode_base64}
use qh_voice_kit.Base64.Fields.{base64_value-letter, letter-ne-pad}
use qh_voice_kit.Base64.Steps.{decode_from-some, decode_from-none}

-- A character of the alphabet.
abbrev IsLetter : ℕ → Type 0
IsLetter c = (i : ℕ) × (i < 64) × (c ≡ letter i)

-- Blocks of four letters, of which only the last may end in one pad or in two.
pub data IsText : Bytes → Type 0 where
  nil : IsText []
  whole :
      {a b c d : ℕ} {rest : Bytes}
      → IsLetter a
      → IsLetter b
      → IsLetter c
      → IsLetter d
      → IsText rest
      → IsText (a ∷ b ∷ c ∷ d ∷ rest)
  one_pad :
      {a b c d : ℕ} → IsLetter a → IsLetter b → IsLetter c → d ≡ b'=' → IsText (a ∷ b ∷ c ∷ d ∷ [])
  two_pads :
      {a b c d : ℕ} → IsLetter a → IsLetter b → c ≡ b'=' → d ≡ b'=' → IsText (a ∷ b ∷ c ∷ d ∷ [])

reads_back : ℕ → Option ℕ → Bool
reads_back c none = true
reads_back c (some i) = ltb i 64 && c == letter i

reads_back_table : all_below 128 (λ c. reads_back c (base64_value c)) ≡ true
unfolding all_below reads_back base64_value
reads_back_table = refl

base64_value-lt : (c i : ℕ) → base64_value c ≡ some i → c < 128
unfolding base64_value
base64_value-lt c i h = ground arith

base64_value-IsLetter : (c i : ℕ) → base64_value c ≡ some i → IsLetter c
unfolding reads_back
base64_value-IsLetter c i h =
    let t : reads_back c (base64_value c) ≡ true =
      all_below→at 128 (λ c. reads_back c (base64_value c)) reads_back_table c
        (base64_value-lt c i h) in
    (i, ground arith, ground arith)

-- What a round of the loop has seen when it pushes bytes.
data Round (a b c d : ℕ) (last : Bool) : Type 0 where
  whole : IsLetter a → IsLetter b → IsLetter c → IsLetter d → Round a b c d last
  one_pad : IsLetter a → IsLetter b → IsLetter c → d ≡ b'=' → last ≡ true → Round a b c d last
  two_pads : IsLetter a → IsLetter b → c ≡ b'=' → d ≡ b'=' → last ≡ true → Round a b c d last

abbrev HasValue : ℕ → Type 0
HasValue c = (i : ℕ) × (base64_value c ≡ some i)

HasValue-IsLetter : {c : ℕ} → HasValue c → IsLetter c
HasValue-IsLetter {c} (i, h) = base64_value-IsLetter c i h

module _ (a b c d : ℕ) (last : Bool) {bytes : Bytes}
    (h : decode_block a b c d last ≡ some bytes) where
  first_value : HasValue a
  unfolding decode_block
  first_value = ground arith

  second_value : HasValue b
  unfolding decode_block
  second_value = ground arith

  third_value : (c == b'=') ≡ false → HasValue c
  unfolding decode_block
  third_value e = ground arith

  fourth_value : (d == b'=') ≡ false → HasValue d
  unfolding decode_block
  fourth_value e = ground arith

  pads_last : (d == b'=') ≡ true → last ≡ true
  unfolding decode_block
  pads_last e = ground arith

  pads_both : (c == b'=') ≡ true → (d == b'=') ≡ true
  unfolding decode_block
  pads_both e = ground arith

  decode_block-Round : Round a b c d last
  decode_block-Round = elim (Bool-cases (c == b'=')) [
    | inl pad ↦
        two_pads (HasValue-IsLetter first_value) (HasValue-IsLetter second_value) (ground arith)
          (ground (arith, pads_both pad)) (pads_last (pads_both pad))
    | inr third ↦ elim (Bool-cases (d == b'=')) [
      | inl pad ↦
          one_pad (HasValue-IsLetter first_value) (HasValue-IsLetter second_value)
            (HasValue-IsLetter (third_value third)) (ground arith) (pads_last pad)
      | inr fourth ↦
          whole (HasValue-IsLetter first_value) (HasValue-IsLetter second_value)
            (HasValue-IsLetter (third_value third)) (HasValue-IsLetter (fourth_value fourth))
    ]
  ]

-- Conversely such a block is decoded.
value_of : {c : ℕ} → IsLetter c → (HasValue c) × ((c == b'=') ≡ false)
value_of (i, lt, e) = ((i, rw e (base64_value-letter i lt)), rw e (letter-ne-pad i lt))

Round-decode_block :
    {a b c d : ℕ} {last : Bool}
    → Round a b c d last
    → (bytes : Bytes) × (decode_block a b c d last ≡ some bytes)
unfolding decode_block
Round-decode_block (whole la lb lc ld) =
    let ((i, hi), _) = value_of la in
    let ((j, hj), _) = value_of lb in
    let ((k, hk), nk) = value_of lc in
    let ((l, hl), nl) = value_of ld in
    (decoded i j k l false false, rw (nk, nl) (rw (hi, hj) (rw (hk, hl))))
Round-decode_block (one_pad la lb lc e z) =
    let ((i, hi), _) = value_of la in
    let ((j, hj), _) = value_of lb in
    let ((k, hk), nk) = value_of lc in
    (decoded i j k 0 false true, rw (e, z) (rw nk (rw (hi, hj) (rw hk))))
Round-decode_block (two_pads la lb ec e z) =
    let ((i, hi), _) = value_of la in
    let ((j, hj), _) = value_of lb in (decoded i j 0 0 true true, rw (ec, e, z) (rw (hi, hj)))

is_empty→nil : (xs : Bytes) → is_empty xs ≡ true → xs ≡ []
is_empty→nil [] h = refl
is_empty→nil (x ∷ xs) h = cc

Round-IsText :
    {a b c d : ℕ} (rest : Bytes)
    → Round a b c d (is_empty rest)
    → IsText rest
    → IsText (a ∷ b ∷ c ∷ d ∷ rest)
Round-IsText rest (whole la lb lc ld) t = whole la lb lc ld t
Round-IsText rest (one_pad la lb lc e z) t = rw (is_empty→nil rest z) (one_pad la lb lc e)
Round-IsText rest (two_pads la lb ec e z) t = rw (is_empty→nil rest z) (two_pads la lb ec e)

decode_from-IsText :
    (s output : Bytes) → length s % 4 ≡ 0 → (decode_from output s).0 ≡ true → IsText s
decode_from-IsText [] output m h = nil
decode_from-IsText (a ∷ []) output m h = absurd (omega arith)
decode_from-IsText (a ∷ b ∷ []) output m h = absurd (omega arith)
decode_from-IsText (a ∷ b ∷ c ∷ []) output m h = absurd (omega arith)
decode_from-IsText (a ∷ b ∷ c ∷ d ∷ rest) output m h =
    elim (Option-cases (decode_block a b c d (is_empty rest))) [
      | inl e ↦ cc (decode_from-none output a b c d rest e)
      | inr (bytes, e) ↦ Round-IsText rest (decode_block-Round a b c d (is_empty rest) e) (
          decode_from-IsText rest (output ++ bytes) (omega arith)
            (ap (λ (r : Bool × Bytes). r.0) (sym (decode_from-some output a b c d rest e)) ∙ h))
    ]

IsText-decode_from : {s : Bytes} → IsText s → (output : Bytes) → (decode_from output s).0 ≡ true
IsText-decode_from nil output = unfold decode_from in refl
IsText-decode_from (whole {a} {b} {c} {d} {rest} la lb lc ld t) output =
    let (bytes, e) = Round-decode_block {last = is_empty rest} (whole la lb lc ld) in
    rw (decode_from-some output a b c d rest e) (IsText-decode_from t (output ++ bytes))
IsText-decode_from (one_pad {a} {b} {c} {d} la lb lc e) output =
    let (bytes, h) = Round-decode_block {d = d} {last = true} (one_pad la lb lc e refl) in
    rw (decode_from-some output a b c d [] h) (unfold decode_from in refl)
IsText-decode_from (two_pads {a} {b} {c} {d} la lb ec e) output =
    let (bytes, h) = Round-decode_block {c = c} {d = d} {last = true} (two_pads la lb ec e refl) in
    rw (decode_from-some output a b c d [] h) (unfold decode_from in refl)

length-IsText : {s : Bytes} → IsText s → length s % 4 ≡ 0
length-IsText nil = refl
length-IsText (whole la lb lc ld t) = omega (arith, length-IsText t)
length-IsText (one_pad la lb lc e) = refl
length-IsText (two_pads la lb c e) = refl

-- The decoder returns true exactly on the empty text and on texts of whole blocks over the
-- alphabet of which only the last may be padded, by one sign or by two.
pub decode_base64-eq_true_iff : (s : Bytes) → ((decode_base64 s).0 ≡ true) ↔ IsText s
unfolding decode_base64
decode_base64-eq_true_iff [] = (λ h. nil, λ t. refl)
decode_base64-eq_true_iff (x ∷ s) = (
  λ h. decode_from-IsText (x ∷ s) [] (ground arith) (ground arith),
  λ t. ground (arith, length-IsText t, IsText-decode_from t []),
)
