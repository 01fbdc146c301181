-- ===== src/Base64/RoundTrip.antt =====
-- realtime_voice_protocol.h: `decodeBase64` undoes `encodeBase64`.
use mathlib.Core.List.{append-nil, append_assoc}
use qh_voice_kit.Base.{
  ℕ, ◌+◌, ◌*◌, ◌/◌, ◌%◌, ◌^◌, ◌<◌, bit_or, Bool, true, false, some, [], ◌∷◌, ◌++◌, ◌≡◌, refl, ◌∙◌,
  ap, arith, if◌then◌else◌, length,
}
use qh_voice_kit.Base.Bytes.{Bytes, IsBytes, is_empty}
use qh_voice_kit.Base.Words.{◌<<<◌}
use qh_voice_kit.Base64.{
  letter, encode_block, encode_base64, decoded, decode_block, decode_from, decode_base64,
}
use qh_voice_kit.Base64.Steps.{decode_from-some}
use qh_voice_kit.Base64.Fields.{
  join_bytes, join_sextets, low_sextet, base64_value-letter, letter-ne-pad,
}

-- The decoder on blocks of letters: whole, with one pad and with two.
module _ (i j : ℕ) (hi : i < 64) (hj : j < 64) where
  block_one : decode_block (letter i) (letter j) b'=' b'=' true ≡ some (decoded i j 0 0 true true)
  unfolding decode_block
  block_one = rw (base64_value-letter i hi, base64_value-letter j hj)

  block_two :
      (k : ℕ)
      → k < 64
      → decode_block (letter i) (letter j) (letter k) b'=' true ≡ some (decoded i j k 0 false true)
  unfolding decode_block
  block_two k hk =
      rw (letter-ne-pad k hk)
        (rw (base64_value-letter i hi, base64_value-letter j hj, base64_value-letter k hk))

  block_three :
      (k l : ℕ) (last : Bool)
      → k < 64
      → l < 64
      → decode_block (letter i) (letter j) (letter k) (letter l) last
        ≡ some (decoded i j k l false false)
  unfolding decode_block
  block_three k l last hk hl =
      rw (letter-ne-pad k hk, letter-ne-pad l hl)
        (rw (base64_value-letter i hi, base64_value-letter j hj)
          (rw (base64_value-letter k hk, base64_value-letter l hl)))

value_of : ℕ → ℕ → ℕ → ℕ
value_of a b c = a * 65536 + b * 256 + c

-- The bytes of a block come back from its sextets.
decoded_bytes :
    (a b c i j k l : ℕ) (p q : Bool)
    → a < 256
    → b < 256
    → c < 256
    → let v = value_of a b c in
      i ≡ v / 2 ^ 18 % 64
      → j ≡ v / 2 ^ 12 % 64
      → k ≡ v / 2 ^ 6 % 64
      → l ≡ v % 64
      → decoded i j k l p q ≡ (a ∷ (if p then [] else b ∷ [])) ++ (if q then [] else c ∷ [])
unfolding decoded value_of
decoded_bytes a b c i j k l p q ha hb hc ei ej ek el = rw joined (rw (first, second, third))
  where
    joined : bit_or (bit_or (bit_or (i <<< 18) (j <<< 12)) (k <<< 6)) l ≡ a * 65536 + b * 256 + c
    joined = join_sextets i j k l (omega arith) (omega arith) (omega arith) ∙ omega arith

    first : (a * 65536 + b * 256 + c) / 65536 % 256 ≡ a
    first = omega arith

    second : (a * 65536 + b * 256 + c) / 256 % 256 ≡ b
    second = omega arith

    third : (a * 65536 + b * 256 + c) % 256 ≡ c
    third = omega arith

-- A block of the encoder, by its sextets.
encode_block_lem :
    (a b c : ℕ) (p q : Bool)
    → a < 256
    → b < 256
    → c < 256
    → let v = value_of a b c in
      encode_block a b c p q
      ≡ letter (v / 2 ^ 18 % 64)
        ∷ letter (v / 2 ^ 12 % 64)
        ∷ (if p then letter (v / 2 ^ 6 % 64) else b'=')
        ∷ (if q then letter (v % 64) else b'=')
        ∷ []
unfolding encode_block value_of
encode_block_lem a b c p q ha hb hc = rw (join_bytes a b c ha hb hc) (simp low_sextet)

encoded-cons :
    (a b c : ℕ) (rest : Bytes)
    → encode_base64 (a ∷ b ∷ c ∷ rest) ≡ encode_block a b c true true ++ encode_base64 rest
unfolding encode_base64
encoded-cons a b c rest = refl

decode_whole :
    (a b c : ℕ) (out rest : Bytes)
    → a < 256
    → b < 256
    → c < 256
    → decode_from out (encode_block a b c true true ++ rest)
      ≡ decode_from (out ++ (a ∷ b ∷ c ∷ [])) rest
decode_whole a b c out rest ha hb hc = rw (encode_block_lem a b c true true ha hb hc) (
    decode_from-some out _ _ _ _ rest (
      block_three _ _ (omega arith) (omega arith) _ _ (is_empty rest) (omega arith) (omega arith)
      ∙ ap some (decoded_bytes a b c _ _ _ _ false false ha hb hc refl refl refl refl)))

decode_two :
    (a b : ℕ) (out : Bytes)
    → a < 256
    → b < 256
    → decode_from out (encode_block a b 0 true false) ≡ decode_from (out ++ (a ∷ b ∷ [])) []
decode_two a b out ha hb = rw (encode_block_lem a b 0 true false ha hb (omega arith)) (
    decode_from-some out _ _ _ _ [] (
      block_two _ _ (omega arith) (omega arith) _ (omega arith)
      ∙ ap some (
          decoded_bytes a b 0 _ _ _ 0 false true ha hb (omega arith) refl refl refl
            (unfold value_of in omega arith))))

decode_one :
    (a : ℕ) (out : Bytes)
    → a < 256
    → decode_from out (encode_block a 0 0 false false) ≡ decode_from (out ++ (a ∷ [])) []
decode_one a out ha = rw (encode_block_lem a 0 0 false false ha (omega arith) (omega arith)) (
    decode_from-some out _ _ _ _ [] (
      block_one _ _ (omega arith) (omega arith)
      ∙ ap some (
          decoded_bytes a 0 0 _ _ 0 0 true true ha (omega arith) (omega arith) refl refl
            (unfold value_of in omega arith) (unfold value_of in omega arith))))

decode_from-nil : (out : Bytes) → decode_from out [] ≡ (true, out)
unfolding decode_from
decode_from-nil out = refl

decode_from-encode :
    (bs out : Bytes) → IsBytes bs → decode_from out (encode_base64 bs) ≡ (true, out ++ bs)
unfolding encode_base64
decode_from-encode [] out h = rw append-nil (decode_from-nil out)
decode_from-encode (a ∷ []) out h = decode_one a out h.0 ∙ decode_from-nil _
decode_from-encode (a ∷ b ∷ []) out h = decode_two a b out h.0 h.1.0 ∙ decode_from-nil _
decode_from-encode (a ∷ b ∷ c ∷ rest) out h =
    decode_whole a b c out (encode_base64 rest) h.0 h.1.0 h.1.1.0
    ∙ decode_from-encode rest (out ++ (a ∷ b ∷ c ∷ [])) h.1.1.1
    ∙ ap (λ (t : Bytes). (true, t)) (append_assoc out (a ∷ b ∷ c ∷ []) rest)

-- The encoding of n bytes has ((n + 2) / 3) * 4 characters, the number that the code reserves.
pub length-encode_base64 : (bs : Bytes) → length (encode_base64 bs) ≡ (length bs + 2) / 3 * 4
unfolding encode_base64 encode_block
length-encode_base64 [] = refl
length-encode_base64 (a ∷ []) = refl
length-encode_base64 (a ∷ b ∷ []) = refl
length-encode_base64 (a ∷ b ∷ c ∷ rest) = omega (arith, length-encode_base64 rest)

encode_base64-is_empty : (bs : Bytes) → is_empty (encode_base64 bs) ≡ is_empty bs
unfolding encode_base64 encode_block
encode_base64-is_empty [] = refl
encode_base64-is_empty (a ∷ []) = refl
encode_base64-is_empty (a ∷ b ∷ []) = refl
encode_base64-is_empty (a ∷ b ∷ c ∷ rest) = refl

-- Whatever bytes are encoded, the decoder accepts the text and returns those bytes.
pub decode_base64-encode_base64 :
    (bs : Bytes) → IsBytes bs → decode_base64 (encode_base64 bs) ≡ (true, bs)
unfolding decode_base64
decode_base64-encode_base64 [] h = unfold encode_base64 in refl
decode_base64-encode_base64 (b ∷ bs) h = ground (
  arith,
  length-encode_base64 (b ∷ bs),
  decode_from-encode (b ∷ bs) [] h,
  encode_base64-is_empty (b ∷ bs),
)
