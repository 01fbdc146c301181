-- ===== src/Json.antt =====
-- firmware/esp32_voice_kit/json_string.h: JSON strings. A cursor is the text from there on, and the
-- loop of `parseJsonString` a recursion on fuel, one more than the length of the text
-- (`Json.Fuel`). Children: the round trip, the fuel, and what is written.
pub mod RoundTrip
pub mod Fuel
pub mod Clean
use qh_voice_kit.Base.{
  ℕ, zero, suc, ◌+◌, ◌-◌, ◌*◌, ◌/◌, ◌%◌, bit_and, bit_or, Bool, false, not, ◌&&◌, ◌||◌, Option,
  none, some, [], ◌∷◌, ◌++◌, leb, ltb, ◌==◌, if◌then◌else◌, length, drop,
}
use qh_voice_kit.Base.Bytes.{Bytes}
use qh_voice_kit.Base.Search.{find_first, find_text}
use qh_voice_kit.Base.Words.{◌<<<◌, ◌>>>◌, u8, u32, sub32}

-- A digit of `%04x`.
abbrev hex_char : ℕ → ℕ
hex_char d = if ltb d 10 then d + b'0' else d - 10 + b'a'

abbrev backslashed : ℕ → Bytes
backslashed c = b'\\' ∷ c ∷ []

-- The `switch` of `escapeJsonString`. A control character has two hexadecimal digits.
unfoldable pub escape_byte : ℕ → Bytes
escape_byte value =
    if value == b'"'
    then backslashed b'"'
    else if value == b'\\'
    then backslashed b'\\'
    else if value == 8
    then backslashed b'b'
    else if value == 12
    then backslashed b'f'
    else if value == b'\n'
    then backslashed b'n'
    else if value == b'\r'
    then backslashed b'r'
    else if value == b'\t'
    then backslashed b't'
    else if ltb value 0x20
    then b'\\' ∷ b'u' ∷ b'0' ∷ b'0' ∷ hex_char (value / 16) ∷ hex_char (value % 16) ∷ []
    else value ∷ []

unfoldable pub escape_json_string : Bytes → Bytes
escape_json_string [] = []
escape_json_string (value ∷ input) = escape_byte value ++ escape_json_string input

-- `none` is -1.
unfoldable pub hex_digit : ℕ → Option ℕ
hex_digit value =
    if leb b'0' value && leb value b'9'
    then some (value - b'0')
    else if leb b'a' value && leb value b'f'
    then some (value - b'a' + 10)
    else if leb b'A' value && leb value b'F'
    then some (value - b'A' + 10)
    else none

-- The bytes that `appendUtf8` pushes, or `none` where it returns false.
unfoldable pub append_utf8 : ℕ → Option Bytes
append_utf8 codepoint =
    if leb 0xD800 codepoint && leb codepoint 0xDFFF
    then none
    else if leb codepoint 0x7F
    then some (u8 codepoint ∷ [])
    else if leb codepoint 0x7FF
    then some (u8 (bit_or 0xC0 (codepoint >>> 6)) ∷ u8 (bit_or 0x80 (bit_and codepoint 0x3F)) ∷ [])
    else if leb codepoint 0xFFFF
    then some (
        u8 (bit_or 0xE0 (codepoint >>> 12))
        ∷ u8 (bit_or 0x80 (bit_and (codepoint >>> 6) 0x3F))
        ∷ u8 (bit_or 0x80 (bit_and codepoint 0x3F))
        ∷ [])
    else none

infixl 5 ◌>>=◌
abbrev pub ◌>>=◌ {ℓ κ} : {A : Type ℓ} {B : Type κ} → Option A → (A → Option B) → Option B
none >>= f = none
some a >>= f = f a

-- What a round of the loop comes to: it returns an output or nothing, or goes on with the output
-- and text that it leaves.
pub data Round : Type 0 where
  returned : Option Bytes → Round
  goes_on : Bytes → Bytes → Round

-- The four digits of `\u`.
unfoldable pub parse_codepoint : ℕ → ℕ → ℕ → ℕ → Option ℕ
unfolding hex_digit
parse_codepoint a b c d = do
  p ← hex_digit a
  q ← hex_digit b
  r ← hex_digit c
  s ← hex_digit d
  some (bit_or (bit_or (bit_or (bit_or (0 <<< 4) p <<< 4) q <<< 4) r <<< 4) s)

unfoldable pub parse_unicode : Bytes → Bytes → Round
unfolding parse_codepoint append_utf8
parse_unicode output (a ∷ b ∷ c ∷ d ∷ rest) = elim (parse_codepoint a b c d >>= append_utf8) [
  | none ↦ returned none
  | some bytes ↦ goes_on (output ++ bytes) rest
]
parse_unicode output _ = returned none

-- What follows a backslash.
unfoldable pub parse_escape : Bytes → Bytes → Round
unfolding parse_unicode
parse_escape output [] = returned none
parse_escape output (e ∷ rest) =
    if e == b'"' || e == b'\\' || e == b'/'
    then goes_on (output ++ (e ∷ [])) rest
    else if e == b'b'
    then goes_on (output ++ (8 ∷ [])) rest
    else if e == b'f'
    then goes_on (output ++ (12 ∷ [])) rest
    else if e == b'n'
    then goes_on (output ++ (b'\n' ∷ [])) rest
    else if e == b'r'
    then goes_on (output ++ (b'\r' ∷ [])) rest
    else if e == b't'
    then goes_on (output ++ (b'\t' ∷ [])) rest
    else if e == b'u'
    then parse_unicode output rest
    else returned none

-- One round of the loop of `parseJsonString`; the end of the text ends it with `std::nullopt`.
unfoldable pub parse_round : Bytes → Bytes → Round
unfolding parse_escape
parse_round output [] = returned none
parse_round output (value ∷ rest) =
    if value == b'"'
    then returned (some output)
    else if not (value == b'\\')
    then if ltb value 0x20 then returned none else goes_on (output ++ (value ∷ [])) rest
    else parse_escape output rest

unfoldable pub parse_loop : ℕ → Bytes → Bytes → Option Bytes
parse_loop zero output text = none
parse_loop (suc fuel) output text = elim (parse_round output text) [
  | returned result ↦ result
  | goes_on output' rest ↦ parse_loop fuel output' rest
]

-- The text is that from `quote` on; there is none behind the end.
unfoldable pub parse_json_string : Bytes → Option Bytes
parse_json_string [] = none
parse_json_string (q ∷ text) = if q == b'"' then parse_loop (suc (length text)) [] text else none

-- `std::isspace` and `std::isdigit`.
abbrev pub is_space : ℕ → Bool
is_space c = c == b' ' || (leb 9 c && leb c 13)

abbrev pub is_digit : ℕ → Bool
is_digit c = leb b'0' c && leb c b'9'

unfoldable pub skip_space : Bytes → Bytes
skip_space [] = []
skip_space (c ∷ text) = let rest = skip_space text in if is_space c then rest else c ∷ text

-- The common start of the two searches: the text of the value that follows the first occurrence of
-- the quoted key and the next colon.
unfoldable pub find_value : Bytes → Bytes → ℕ → Option Bytes
unfolding find_text find_first skip_space
find_value json key start =
    let needle = b'"' ∷ (key ++ (b'"' ∷ [])) in
    let text = drop start json in
    do
      at ← find_text needle text
      let behind = drop (at + length needle) text
      colon ← find_first (λ c. c == b':') behind
      some (skip_space (drop (colon + 1) behind))

unfoldable pub find_json_string : Bytes → Bytes → ℕ → Option Bytes
find_json_string json key start = find_value json key start >>= parse_json_string

-- The digits of `findJsonUnsignedInteger` behind its test of the first.
unfoldable pub parse_unsigned : ℕ → Bytes → Option ℕ
parse_unsigned value [] = some value
parse_unsigned value (c ∷ text) =
    let digit = c - b'0' in
    let rest = parse_unsigned (u32 (value * 10 + digit)) text in
    if not (is_digit c)
    then some value
    else if ltb (sub32 0xFFFF_FFFF digit / 10) value
    then none
    else rest

abbrev pub starts_with_digit : Bytes → Bool
starts_with_digit [] = false
starts_with_digit (c ∷ _) = is_digit c

unfoldable pub find_json_unsigned_integer : Bytes → Bytes → ℕ → Option ℕ
unfolding parse_unsigned
find_json_unsigned_integer json key start = do
  text ← find_value json key start
  if not (starts_with_digit text) then none else parse_unsigned 0 text
