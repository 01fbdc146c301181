-- ===== src/Sse/Decoder.antt =====
-- The decoder of doubao_tts_sse.h beside the one of realtime_voice_protocol.h.
use qh_voice_kit.Base.{
  ℕ, ◌%◌, ◌≡◌, refl, ap, bit_and, bit_or, Bool, true, false, not, ◌&&◌, ◌||◌, Option, none, some,
  [], ◌∷◌, ◌++◌, ◌==◌, if◌then◌else◌, length, arith, Bool-cases, Option-cases, inl, inr,
}
use qh_voice_kit.Base.Bits.{bit_and_low}
use qh_voice_kit.Base.Bytes.{Bytes, is_empty}
use qh_voice_kit.Base.Words.{◌<<<◌, ◌>>>◌, u8}
use qh_voice_kit.Base64
use qh_voice_kit.Json.{◌>>=◌}
use qh_voice_kit.Sse.Text.{base64_value, block_bytes, decode_block, decode_blocks, decode_base64}

low_byte : (n : ℕ) → u8 (bit_and n 0xFF) ≡ u8 n
low_byte n = omega (arith, bit_and_low 8 n)

block_bytes-decoded :
    (a b c d : ℕ) (p q : Bool) → block_bytes a b c d p q ≡ Base64.decoded a b c d p q
unfolding block_bytes Base64.decoded
block_bytes-decoded a b c d p q =
    let block = bit_or (bit_or (bit_or (a <<< 18) (b <<< 12)) (c <<< 6)) d in
    rw (low_byte (block >>> 16), low_byte (block >>> 8), low_byte block) refl

base64_value-eq : (c : ℕ) → base64_value c ≡ Base64.base64_value c
unfolding base64_value Base64.base64_value
base64_value-eq c = refl

-- The four values of a block, each of which may be missing.
values-eq :
    (a b c d : Option ℕ) (p q : Bool)
    → (a >>= λ i. b >>= λ j. c >>= λ k. d >>= λ l. some (block_bytes i j k l p q))
      ≡ (a >>= λ i. b >>= λ j. c >>= λ k. d >>= λ l. some (Base64.decoded i j k l p q))
values-eq none _ _ _ p q = refl
values-eq (some _) none _ _ p q = refl
values-eq (some _) (some _) none _ p q = refl
values-eq (some _) (some _) (some _) none p q = refl
values-eq (some i) (some j) (some k) (some l) p q = ap some (block_bytes-decoded i j k l p q)

decode_block-eq :
    (a b c d : ℕ) (last : Bool) → decode_block a b c d last ≡ Base64.decode_block a b c d last
unfolding decode_block Base64.decode_block base64_value Base64.base64_value
decode_block-eq a b c d last =
    let i = base64_value a in
    let j = base64_value b in
    let third = if c == b'=' then some 0 else base64_value c in
    let fourth = if d == b'=' then some 0 else base64_value d in
    let same = values-eq i j third fourth (c == b'=') (d == b'=') in
    ap
      (λ (r : Option Bytes).
        if c == b'=' && not (d == b'=')
        then none
        else if (c == b'=' || d == b'=') && not last
        then none
        else r)
      same

-- The audio of a result of the other decoder.
abbrev pub as_option : Bool × Bytes → Option Bytes
as_option (true, bytes) = some bytes
as_option (false, _) = none

decode_blocks-eq :
    (output s : Bytes) → decode_blocks output s ≡ as_option (Base64.decode_from output s)
unfolding decode_blocks Base64.decode_from
decode_blocks-eq output (a ∷ b ∷ c ∷ d ∷ rest) =
    elim (Option-cases (Base64.decode_block a b c d (is_empty rest))) [
      | inl e ↦
          rw (decode_block-eq a b c d (is_empty rest), decode_blocks)
            (rw (e, decode_blocks, Base64.decode_from) refl)
      | inr (bytes, e) ↦
          rw (decode_block-eq a b c d (is_empty rest), decode_blocks)
            (rw (e, decode_blocks, Base64.decode_from) (decode_blocks-eq (output ++ bytes) rest))
    ]
decode_blocks-eq output [] = refl
decode_blocks-eq output (_ ∷ []) = refl
decode_blocks-eq output (_ ∷ _ ∷ []) = refl
decode_blocks-eq output (_ ∷ _ ∷ _ ∷ []) = refl

-- The two decoders of the firmware agree on every text but the empty one, which the decoder of the
-- event stream rejects: it returns bytes exactly where `decodeBase64` of the realtime protocol
-- returns true, and then the same bytes.
pub decode_base64-agrees :
    (s : Bytes)
    → decode_base64 s ≡ (if is_empty s then none else as_option (Base64.decode_base64 s))
unfolding decode_base64 Base64.decode_base64
decode_base64-agrees [] = refl
decode_base64-agrees (c ∷ s) = elim (Bool-cases (length (c ∷ s) % 4 == 0)) [
  | inl e ↦ rw e (decode_blocks-eq [] (c ∷ s))
  | inr e ↦ rw e refl
]
