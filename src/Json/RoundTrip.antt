-- ===== src/Json/RoundTrip.antt =====
-- json_string.h: the reader on what is written.
use qh_voice_kit.Base.{
  ℕ, zero, suc, ◌/◌, ◌%◌, ◌<◌, ◌≡◌, refl, sym, ◌∙◌, ap, Bool, true, false, none, some, [], ◌∷◌,
  ◌++◌, ◌==◌, arith, length, length-append,
}
use qh_voice_kit.Base.Bytes.{Bytes, IsBytes}
use qh_voice_kit.Base.Tables.{all_below, all_below→at}
use qh_voice_kit.Json.{
  escape_byte, escape_json_string, hex_char, hex_digit, parse_codepoint, append_utf8, parse_unicode,
  parse_escape, goes_on, parse_round, parse_loop, parse_json_string,
}
use mathlib.Core.List.{append-nil, append_assoc}

reads_back : ℕ → Bool
reads_back c = elim (parse_codepoint b'0' b'0' (hex_char (c / 16)) (hex_char (c % 16))) [
  | none ↦ false
  | some n ↦ n == c
]

reads_back_all : all_below 32 reads_back ≡ true
unfolding all_below reads_back parse_codepoint hex_digit
reads_back_all = refl

-- The two digits of a control character are its code.
parse_codepoint-hex_char :
    (c : ℕ) → c < 32 → parse_codepoint b'0' b'0' (hex_char (c / 16)) (hex_char (c % 16)) ≡ some c
unfolding reads_back
parse_codepoint-hex_char c h = ground (arith, all_below→at 32 reads_back reads_back_all c h)

append_utf8_control : (c : ℕ) → c < 32 → append_utf8 c ≡ some (c ∷ [])
unfolding append_utf8
append_utf8_control c h = ground arith

parse_unicode_control :
    (out : Bytes) (c : ℕ) (rest : Bytes)
    → c < 32
    → parse_unicode out (b'0' ∷ b'0' ∷ hex_char (c / 16) ∷ hex_char (c % 16) ∷ rest)
      ≡ goes_on (out ++ (c ∷ [])) rest
unfolding parse_unicode
parse_unicode_control out c rest h =
    rw (parse_codepoint-hex_char c h, parse_unicode) (rw (append_utf8_control c h))

-- One round reads one escaped byte.
pub parse_round-escape_byte :
    (out : Bytes) (c : ℕ) (rest : Bytes)
    → c < 256
    → parse_round out (escape_byte c ++ rest) ≡ goes_on (out ++ (c ∷ [])) rest
unfolding parse_round parse_escape escape_byte
parse_round-escape_byte out c rest h = ground (arith, parse_unicode_control out c rest)

pub length-escape_byte : (c : ℕ) → 0 < length (escape_byte c)
unfolding escape_byte
length-escape_byte c = ground arith

-- The bytes that are left are enough fuel.
loop_reads :
    (fuel : ℕ) (out s rest : Bytes)
    → IsBytes s
    → length (escape_json_string s) < fuel
    → parse_loop fuel out (escape_json_string s ++ (b'"' ∷ rest)) ≡ some (out ++ s)
unfolding parse_loop parse_round escape_json_string
loop_reads zero out s rest h lt = absurd (omega arith)
loop_reads (suc fuel) out [] rest h lt = ap some (sym (append-nil out))
loop_reads (suc fuel) out (c ∷ s) rest (hc, h) lt =
    rw (append_assoc (escape_byte c) (escape_json_string s) (b'"' ∷ rest)) (
      rw (parse_round-escape_byte out c (escape_json_string s ++ (b'"' ∷ rest)) hc, parse_loop)
        (loop_reads fuel (out ++ (c ∷ [])) s rest h (
            omega
              (arith, length-append (escape_byte c) (escape_json_string s), length-escape_byte c))
          ∙ ap some (append_assoc out (c ∷ []) s)))

-- For every string of bytes, parsing its escaped form between two quotes gives the string back,
-- whatever text follows the closing quote.
pub parse_json_string-escape_json_string :
    (s rest : Bytes)
    → IsBytes s
    → parse_json_string (b'"' ∷ (escape_json_string s ++ (b'"' ∷ rest))) ≡ some s
unfolding parse_json_string
parse_json_string-escape_json_string s rest h =
    loop_reads (suc (length (escape_json_string s ++ (b'"' ∷ rest)))) [] s rest h
      (omega (arith, length-append (escape_json_string s) (b'"' ∷ rest)))
