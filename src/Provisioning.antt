-- ===== src/Provisioning.antt =====
-- firmware/esp32_voice_kit/provisioning_command.h: the line that starts a provisioning. `>>` of a
-- string stream gives the words of the line. Child: what an accepted command satisfies.
pub mod Accepted
use qh_voice_kit.Base.{
  ℕ, ◌+◌, ◌-◌, ◌*◌, ◌^◌, Bool, true, false, not, ◌&&◌, ◌||◌, Option, none, some, List, [], ◌∷◌, leb,
  ltb, ◌==◌, if◌then◌else◌, length,
}
use qh_voice_kit.Base.Bytes.{Bytes, codes, bytes_eq}
use qh_voice_kit.Json.{is_digit, is_space}
use qh_voice_kit.Wire.{maximum_wire_bytes}

pub data ProvisioningCommand : Type 0 where
  invalid status : ProvisioningCommand
  config : ℕ → Bytes → ProvisioningCommand

-- `std::isxdigit`.
unfoldable pub is_hex : ℕ → Bool
is_hex c = is_digit c || (leb b'A' c && leb c b'F') || (leb b'a' c && leb c b'f')

unfoldable pub all_hex : Bytes → Bool
all_hex [] = true
all_hex (c ∷ value) = is_hex c && all_hex value

unfoldable pub is_sha256_hex : Bytes → Bool
unfolding all_hex
is_sha256_hex value = if not (length value == 64) then false else all_hex value

-- `std::tolower`.
unfoldable pub to_lower : ℕ → ℕ
to_lower c = if leb b'A' c && leb c b'Z' then c + 32 else c

unfoldable pub lower_case : Bytes → Bytes
unfolding to_lower
lower_case [] = []
lower_case (c ∷ value) = to_lower c ∷ lower_case value

abbrev pub add_word : Bytes → List Bytes → List Bytes
add_word [] words = words
add_word (c ∷ word) words = (c ∷ word) ∷ words

-- The word that a text begins with, empty before a space, and the words behind it.
unfoldable pub split_words : Bytes → Bytes × List Bytes
split_words [] = ([], [])
split_words (c ∷ text) =
    let (word, words) = split_words text in
    if is_space c then ([], add_word word words) else (c ∷ word, words)

-- The value of a text of digits alone.
unfoldable pub digits_value : ℕ → Bytes → Option ℕ
digits_value value [] = some value
digits_value value (c ∷ text) =
    let rest = digits_value (value * 10 + (c - b'0')) text in if is_digit c then rest else none

-- `std::from_chars` that reads the whole text into a `std::size_t`.
unfoldable pub parse_size : Bytes → Option ℕ
unfolding digits_value
parse_size [] = none
parse_size (c ∷ text) = elim (digits_value 0 (c ∷ text)) [
  | none ↦ none
  | some value ↦ if ltb value (2 ^ 32) then some value else none
]

abbrev pub with_size : Option ℕ → Bytes → ProvisioningCommand
with_size none digest = invalid
with_size (some size) digest =
    if size == 0 || ltb maximum_wire_bytes size then invalid else config size digest

-- The tests on the words of the line.
unfoldable pub parse_words : List Bytes → ProvisioningCommand
unfolding is_sha256_hex parse_size lower_case
parse_words (name ∷ size_text ∷ digest ∷ []) =
    if not (bytes_eq name (codes "QH_VOICE_CONFIG")) || not (is_sha256_hex digest)
    then invalid
    else with_size (parse_size size_text) (lower_case digest)
parse_words _ = invalid

unfoldable pub parse_provisioning_command : Bytes → ProvisioningCommand
unfolding split_words parse_words
parse_provisioning_command line =
    let (word, words) = split_words line in
    if bytes_eq line (codes "QH_VOICE_STATUS") then status else parse_words (add_word word words)
