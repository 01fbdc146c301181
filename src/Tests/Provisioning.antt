-- ===== src/Tests/Provisioning.antt =====
-- provisioning_command.h at concrete lines.
use qh_voice_kit.Base.{◌≡◌, refl}
use qh_voice_kit.Base.Bytes.{Bytes, codes, bytes_eq}
use qh_voice_kit.Provisioning.{
  invalid, status, config, is_hex, all_hex, is_sha256_hex, to_lower, lower_case, parse_size,
  digits_value, parse_words, parse_provisioning_command, split_words,
}

abbrev command : Bytes
command =
    codes "QH_VOICE_CONFIG  512 0123456789ABCDEF0123456789ABCDEF0123456789ABCDEF0123456789ABCDEF"

accepted :
    parse_provisioning_command command
    ≡ config 512 (codes "0123456789abcdef0123456789abcdef0123456789abcdef0123456789abcdef")
unfolding parse_provisioning_command split_words parse_words is_sha256_hex all_hex is_hex parse_size
    digits_value lower_case to_lower bytes_eq
accepted = refl

asks_status : parse_provisioning_command (codes "QH_VOICE_STATUS") ≡ status
unfolding parse_provisioning_command bytes_eq
asks_status = refl

without_digest : parse_provisioning_command (codes "QH_VOICE_CONFIG 512") ≡ invalid
unfolding parse_provisioning_command split_words parse_words bytes_eq
without_digest = refl
