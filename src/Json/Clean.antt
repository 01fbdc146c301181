-- ===== src/Json/Clean.antt =====
-- json_string.h: what `escapeJsonString` writes.
use qh_voice_kit.Base.{ℕ, ◌*◌, ◌≤◌, [], ◌∷◌, ◌++◌, arith, length, All, length-append}
use qh_voice_kit.Base.Bytes.{Bytes}
use qh_voice_kit.Json.{escape_byte, escape_json_string}

-- The bytes that a JSON string can hold unescaped, and those of an escape.
abbrev pub IsPrintable : Bytes → Type 0
IsPrintable = All (λ c. 32 ≤ c)

All-append : (a b : Bytes) → IsPrintable a → IsPrintable b → IsPrintable (a ++ b)
All-append [] b ha hb = hb
All-append (x ∷ a) b (h, ha) hb = (h, All-append a b ha hb)

escape_byte-IsPrintable : (c : ℕ) → IsPrintable (escape_byte c)
unfolding escape_byte
escape_byte-IsPrintable c = ground arith

-- The escaped form of any string holds no control character.
pub escape_json_string-IsPrintable : (s : Bytes) → IsPrintable (escape_json_string s)
unfolding escape_json_string
escape_json_string-IsPrintable [] = tt
escape_json_string-IsPrintable (c ∷ s) =
    All-append (escape_byte c) (escape_json_string s) (escape_byte-IsPrintable c)
      (escape_json_string-IsPrintable s)

length-escape_byte : (c : ℕ) → (1 ≤ length (escape_byte c)) × (length (escape_byte c) ≤ 6)
unfolding escape_byte
length-escape_byte c = ground arith

-- The escaped form is at least as long as the string, and at most six times as long.
pub length-escape_json_string :
    (s : Bytes)
    → (length s ≤ length (escape_json_string s)) × (length (escape_json_string s) ≤ 6 * length s)
unfolding escape_json_string
length-escape_json_string [] = ground arith
length-escape_json_string (c ∷ s) = ground (
  arith,
  length-append (escape_byte c) (escape_json_string s),
  length-escape_byte c,
  length-escape_json_string s,
)
