-- ===== src/Sse/Text.antt =====
-- doubao_tts_sse.h: `findJsonInteger`, `base64Value` and `decodeBase64`.
use qh_voice_kit.Base.{
  ℕ, ◌+◌, ◌-◌, ◌*◌, ◌/◌, ◌%◌, bit_and, bit_or, Bool, not, ◌&&◌, ◌||◌, Option, none, some, [], ◌∷◌,
  ◌++◌, leb, ltb, ◌==◌, if◌then◌else◌, length,
}
use qh_voice_kit.Base.Bytes.{Bytes, is_empty}
use qh_voice_kit.Base.Words.{◌<<<◌, ◌>>>◌, u8}
use qh_voice_kit.Json.{◌>>=◌, find_value, is_digit, starts_with_digit}

-- The digits of a number that fits an `int`, which the test keeps from overflowing.
unfoldable pub parse_integer : ℕ → Bytes → Option ℕ
parse_integer value [] = some value
parse_integer value (c ∷ text) =
    let digit = c - b'0' in
    let rest = parse_integer (value * 10 + digit) text in
    if not (is_digit c)
    then some value
    else if ltb ((2147483647 - digit) / 10) value
    then none
    else rest

unfoldable pub find_json_integer : Bytes → Bytes → Option ℕ
unfolding parse_integer
find_json_integer json key = do
  text ← find_value json key 0
  if not (starts_with_digit text) then none else parse_integer 0 text

unfoldable pub base64_value : ℕ → Option ℕ
base64_value value =
    if leb b'A' value && leb value b'Z'
    then some (value - b'A')
    else if leb b'a' value && leb value b'z'
    then some (value - b'a' + 26)
    else if leb b'0' value && leb value b'9'
    then some (value - b'0' + 52)
    else if value == b'+'
    then some 62
    else if value == b'/'
    then some 63
    else none

-- The bytes of a block of four values.
unfoldable pub block_bytes : ℕ → ℕ → ℕ → ℕ → Bool → Bool → Bytes
block_bytes first second third fourth pad2 pad3 =
    let block = bit_or (bit_or (bit_or (first <<< 18) (second <<< 12)) (third <<< 6)) fourth in
    u8 (bit_and (block >>> 16) 0xFF) ∷ (if pad2 then [] else u8 (bit_and (block >>> 8) 0xFF) ∷ [])
    ++ (if pad3 then [] else u8 (bit_and block 0xFF) ∷ [])

-- One round of the loop; `last` is `cursor + 4 == encoded.size()`.
unfoldable pub decode_block : ℕ → ℕ → ℕ → ℕ → Bool → Option Bytes
unfolding base64_value block_bytes
decode_block a b c d last =
    let pad2 = c == b'=' in
    let pad3 = d == b'=' in
    if pad2 && not pad3 then none else if (pad2 || pad3) && not last then none else do
      first ← base64_value a
      second ← base64_value b
      third ← (if pad2 then some 0 else base64_value c)
      fourth ← (if pad3 then some 0 else base64_value d)
      some (block_bytes first second third fourth pad2 pad3)

-- The loop, whose length test has left a multiple of four.
unfoldable pub decode_blocks : Bytes → Bytes → Option Bytes
unfolding decode_block
decode_blocks output (a ∷ b ∷ c ∷ d ∷ rest) = elim (decode_block a b c d (is_empty rest)) [
  | none ↦ none
  | some bytes ↦ decode_blocks (output ++ bytes) rest
]
decode_blocks output _ = some output

unfoldable pub decode_base64 : Bytes → Option Bytes
unfolding decode_blocks
decode_base64 encoded =
    if is_empty encoded || not (length encoded % 4 == 0) then none else decode_blocks [] encoded
