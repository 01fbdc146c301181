-- ===== src/Tests/Json.antt =====
-- json_string.h at concrete texts.
use qh_voice_kit.Base.{◌≡◌, refl, ◌≤◌, ◌*◌, none, some, [], ◌∷◌, ◌++◌, length, arith}
use qh_voice_kit.Base.Bytes.{codes, Bytes}
use qh_voice_kit.Base.Search.{find_first, find_text, begins_with}
use qh_voice_kit.Json.{
  escape_byte, escape_json_string, parse_json_string, parse_loop, parse_round, parse_escape,
  parse_unicode, parse_codepoint, append_utf8, hex_digit, find_value, find_json_unsigned_integer,
  parse_unsigned, skip_space,
}
use qh_voice_kit.Json.Clean.{length-escape_json_string}
use qh_voice_kit.Json.RoundTrip.{parse_json_string-escape_json_string}

-- A quote, a line end, a control character and a byte of UTF-8.
abbrev awkward : Bytes
awkward = b'"' ∷ b'\n' ∷ 1 ∷ 228 ∷ []

escapes : escape_json_string awkward ≡ codes "\\\"\\n\\u0001" ++ (228 ∷ [])
unfolding escape_json_string escape_byte
escapes = refl

-- The sign of the euro, a surrogate and an open string.
euro : parse_json_string (codes "\"\\u20AC\"") ≡ some (226 ∷ 130 ∷ 172 ∷ [])
unfolding parse_json_string parse_loop parse_round parse_escape parse_unicode parse_codepoint
    append_utf8 hex_digit
euro = refl

surrogate : parse_json_string (codes "\"\\uD83D\\uDE00\"") ≡ none
unfolding parse_json_string parse_loop parse_round parse_escape parse_unicode parse_codepoint
    append_utf8 hex_digit
surrogate = refl

open_string : parse_json_string (codes "\"ab") ≡ none
unfolding parse_json_string parse_loop parse_round
open_string = refl

finds : find_json_unsigned_integer (codes "{\"n\": 4294967295,") (codes "n") 0 ≡ some 4294967295
unfolding find_json_unsigned_integer find_value find_text begins_with find_first skip_space
    parse_unsigned
finds = refl

too_big : find_json_unsigned_integer (codes "{\"n\": 4294967296,") (codes "n") 0 ≡ none
unfolding find_json_unsigned_integer find_value find_text begins_with find_first skip_space
    parse_unsigned
too_big = refl

parse_json_string-escape_json_string_example :
    parse_json_string (b'"' ∷ (escape_json_string awkward ++ (b'"' ∷ codes ",x"))) ≡ some awkward
parse_json_string-escape_json_string_example =
    parse_json_string-escape_json_string awkward (codes ",x") (omega arith)

length-escape_json_string_example :
    (length awkward ≤ length (escape_json_string awkward))
    × (length (escape_json_string awkward) ≤ 6 * length awkward)
length-escape_json_string_example = length-escape_json_string awkward
