-- ===== src/Provisioning/Accepted.antt =====
-- provisioning_command.h: what holds of a command that starts a transfer.
use qh_voice_kit.Base.{
  ℕ, ◌≤◌, ◌<◌, ◌≡◌, refl, Bool, true, Option, none, some, List, [], ◌∷◌, length, arith, All, leb,
  ◌&&◌, ◌||◌,
}
use qh_voice_kit.Base.Bytes.{Bytes}
use qh_voice_kit.Json.{is_digit}
use qh_voice_kit.Provisioning.{
  ProvisioningCommand, config, is_hex, all_hex, is_sha256_hex, to_lower, lower_case, with_size,
  parse_size, parse_words, parse_provisioning_command, split_words, add_word,
}

-- A hexadecimal digit without capital letters.
abbrev pub is_lower_hex : ℕ → Bool
is_lower_hex c = is_digit c || (leb b'a' c && leb c b'f')

-- A transfer is of 1 to 8192 bytes, with a digest of 64 small hexadecimal digits.
abbrev pub IsStartable : ProvisioningCommand → Type 0
IsStartable (config size digest) =
    (0 < size) × (size ≤ 8192) × (length digest ≡ 64) × All (λ c. is_lower_hex c ≡ true) digest
IsStartable _ = Unit

length-lower_case : (value : Bytes) → length (lower_case value) ≡ length value
unfolding lower_case
length-lower_case [] = refl
length-lower_case (c ∷ value) = omega (arith, length-lower_case value)

lower_case-All :
    (value : Bytes) → all_hex value ≡ true → All (λ c. is_lower_hex c ≡ true) (lower_case value)
unfolding lower_case all_hex to_lower is_hex
lower_case-All [] h = tt
lower_case-All (c ∷ value) h = ground (arith, lower_case-All value)

with_size-IsStartable :
    (size : Option ℕ) (digest : Bytes)
    → is_sha256_hex digest ≡ true
    → IsStartable (with_size size (lower_case digest))
unfolding is_sha256_hex
with_size-IsStartable none digest h = tt
with_size-IsStartable (some size) digest h =
    ground (arith, length-lower_case digest, lower_case-All digest)

parse_words-IsStartable : (words : List Bytes) → IsStartable (parse_words words)
unfolding parse_words
parse_words-IsStartable (name ∷ size_text ∷ digest ∷ []) =
    ground (arith, with_size-IsStartable (parse_size size_text) digest)
parse_words-IsStartable [] = tt
parse_words-IsStartable (_ ∷ []) = tt
parse_words-IsStartable (_ ∷ _ ∷ []) = tt
parse_words-IsStartable (_ ∷ _ ∷ _ ∷ _ ∷ _) = tt

-- Any line that is accepted as the start of a transfer announces 1 to 8192 bytes and a digest of 64
-- hexadecimal digits without capital letters.
pub parse_provisioning_command-IsStartable :
    (line : Bytes) → IsStartable (parse_provisioning_command line)
unfolding parse_provisioning_command
parse_provisioning_command-IsStartable line =
    let (word, words) = split_words line in
    ground (arith, parse_words-IsStartable (add_word word words))
