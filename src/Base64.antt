-- ===== src/Base64.antt =====
-- firmware/esp32_voice_kit/realtime_voice_protocol.h: `encodeBase64`, `realtimeBase64Value` and
-- `decodeBase64`, which carry PCM in both directions. A loop over a cursor is a recursion on what
-- the cursor has left; `-1` of the value function is `none`. Children: the bit fields, the round
-- trip, and what the decoder accepts.
mod Fields
mod Steps
pub mod RoundTrip
pub mod Accepts
pub mod Plain
use qh_voice_kit.Base.{
  ℕ, ◌+◌, ◌-◌, ◌%◌, bit_and, bit_or, Bool, true, false, not, ◌&&◌, ◌||◌, Option, none, some, [],
  ◌∷◌, ◌++◌, leb, ◌==◌, if◌then◌else◌, get_or, length,
}
use qh_voice_kit.Base.Bytes.{Bytes, codes, is_empty}
use qh_voice_kit.Base.Words.{◌<<<◌, ◌>>>◌, u8}

-- `kAlphabet`.
abbrev alphabet : Bytes
alphabet = codes "ABCDEFGHIJKLMNOPQRSTUVWXYZabcdefghijklmnopqrstuvwxyz0123456789+/"

abbrev letter : ℕ → ℕ
letter i = get_or alphabet i 0

-- One round of `encodeBase64`; the flags are `cursor + 1 < size` and `cursor + 2 < size`.
encode_block : ℕ → ℕ → ℕ → Bool → Bool → Bytes
encode_block first second third has_second has_third =
    let value = bit_or (bit_or (first <<< 16) (second <<< 8)) third in
    letter (bit_and (value >>> 18) 0x3f)
    ∷ letter (bit_and (value >>> 12) 0x3f)
    ∷ (if has_second then letter (bit_and (value >>> 6) 0x3f) else b'=')
    ∷ (if has_third then letter (bit_and value 0x3f) else b'=')
    ∷ []

unfoldable pub encode_base64 : Bytes → Bytes
unfolding encode_block
encode_base64 [] = []
encode_base64 (first ∷ []) = encode_block first 0 0 false false
encode_base64 (first ∷ second ∷ []) = encode_block first second 0 true false
encode_base64 (first ∷ second ∷ third ∷ rest) =
    encode_block first second third true true ++ encode_base64 rest

unfoldable pub base64_value : ℕ → Option ℕ
base64_value value =
    if leb b'A' value && leb value b'Z'
    then some (value - b'A')
    else if leb b'a' value && leb value b'z'
    then some (value - b'a' + 26)
    else if leb b'0' value && leb value b'9'
    then some (value - b'0' + 52)
    else if value == b'+'
    then some 62
    else if value == b'/'
    then some 63
    else none

infixl 5 ◌>>=◌
abbrev pub ◌>>=◌ {ℓ κ} : {A : Type ℓ} {B : Type κ} → Option A → (A → Option B) → Option B
none >>= f = none
some a >>= f = f a

-- The bytes that a round of `decodeBase64` pushes for four values.
unfoldable pub decoded : ℕ → ℕ → ℕ → ℕ → Bool → Bool → Bytes
decoded first second third fourth third_padding fourth_padding =
    let value = bit_or (bit_or (bit_or (first <<< 18) (second <<< 12)) (third <<< 6)) fourth in
    u8 (value >>> 16) ∷ (if third_padding then [] else u8 (value >>> 8) ∷ [])
    ++ (if fourth_padding then [] else u8 value ∷ [])

-- One round of `decodeBase64`: what it pushes, or `none` where it returns false. `last` is
-- `cursor + 4 == encoded.size()`.
unfoldable pub decode_block : ℕ → ℕ → ℕ → ℕ → Bool → Option Bytes
unfolding decoded
decode_block a b c d last =
    let third_padding = c == b'=' in
    let fourth_padding = d == b'=' in
    if third_padding && not fourth_padding
    then none
    else if (third_padding || fourth_padding) && not last
    then none
    else do
      first ← base64_value a
      second ← base64_value b
      third ← (if third_padding then some 0 else base64_value c)
      fourth ← (if fourth_padding then some 0 else base64_value d)
      some (decoded first second third fourth third_padding fourth_padding)

-- The loop of `decodeBase64`, whose length test has left a multiple of four.
unfoldable pub decode_from : Bytes → Bytes → Bool × Bytes
decode_from output (a ∷ b ∷ c ∷ d ∷ rest) = elim (decode_block a b c d (is_empty rest)) [
  | none ↦ (false, output)
  | some bytes ↦ decode_from (output ++ bytes) rest
]
decode_from output _ = (true, output)

-- The result and `output`, which a failure leaves as far as it was filled.
unfoldable pub decode_base64 : Bytes → Bool × Bytes
decode_base64 encoded =
    if is_empty encoded
    then (true, [])
    else if not (length encoded % 4 == 0)
    then (false, [])
    else decode_from [] encoded
