-- ===== src/Tts.antt =====
-- firmware/esp32_voice_kit/doubao_tts_protocol.h: a request to the speech service and its validation.
pub mod Valid
use qh_voice_kit.Base.{
  ℕ, ◌+◌, Bool, true, false, not, ◌&&◌, ◌||◌, List, [], ◌∷◌, ◌++◌, leb, ltb, ◌==◌, if◌then◌else◌,
}
use qh_voice_kit.Base.Bytes.{Bytes, codes, bytes_eq, is_empty}
use qh_voice_kit.Base.Decimal.{to_decimal}
use qh_voice_kit.Base.Integers.{ℤ, pos, negsuc, int_to_decimal}
use qh_voice_kit.Json.{escape_json_string, is_space}

pub record DoubaoTtsRequest : Type 0 where
  pub user_id : Bytes
  pub text : Bytes
  pub speaker : Bytes
  pub audio_format : Bytes
  pub sample_rate : ℕ  -- uint32_t
  pub speech_rate : ℤ  -- int16_t
  pub loudness_rate : ℤ  -- int16_t

pub data TtsRequestError : Type 0 where
  none missing_user_id missing_text missing_speaker unsupported_format : TtsRequestError
  unsupported_sample_rate invalid_speech_rate invalid_loudness_rate : TtsRequestError

abbrev all_space : Bytes → Bool
all_space [] = true
all_space (c ∷ value) = is_space c && all_space value

unfoldable pub is_blank_text : Bytes → Bool
is_blank_text value = if is_empty value then true else all_space value

abbrev pub formats : List Bytes
formats = codes "mp3" ∷ codes "pcm" ∷ codes "ogg_opus" ∷ []

abbrev pub sample_rates : List ℕ
sample_rates = 8000 ∷ 16000 ∷ 22050 ∷ 24000 ∷ 32000 ∷ 44100 ∷ 48000 ∷ []

-- The loops over the two arrays, which set the flag at a match.
unfoldable pub supported_format : List Bytes → Bytes → Bool → Bool
supported_format [] audio_format flag = flag
supported_format (format ∷ more) audio_format flag =
    supported_format more audio_format (if bytes_eq audio_format format then true else flag)

unfoldable pub supported_sample_rate : List ℕ → ℕ → Bool → Bool
supported_sample_rate [] rate flag = flag
supported_sample_rate (r ∷ more) rate flag =
    supported_sample_rate more rate (if rate == r then true else flag)

-- Below -50, or above 100.
abbrev pub out_of_range : ℤ → Bool
out_of_range (pos n) = ltb 100 n
out_of_range (negsuc n) = leb 50 n

unfoldable pub validate_doubao_tts_request : DoubaoTtsRequest → TtsRequestError
unfolding is_blank_text supported_format supported_sample_rate
validate_doubao_tts_request request =
    if is_blank_text request.user_id
    then missing_user_id
    else if is_blank_text request.text
    then missing_text
    else if is_blank_text request.speaker
    then missing_speaker
    else if not (supported_format formats request.audio_format false)
    then unsupported_format
    else if not (supported_sample_rate sample_rates request.sample_rate false)
    then unsupported_sample_rate
    else if out_of_range request.speech_rate
    then invalid_speech_rate
    else if out_of_range request.loudness_rate
    then invalid_loudness_rate
    else none

unfoldable pub build_doubao_tts_body : DoubaoTtsRequest → Bytes
build_doubao_tts_body request =
    codes "{\"user\":{\"uid\":\""
    ++ (escape_json_string request.user_id
        ++ (codes "\"},\"req_params\":{\"text\":\""
            ++ (escape_json_string request.text
                ++ (codes "\",\"speaker\":\""
                    ++ (escape_json_string request.speaker
                        ++ (codes "\",\"sample_rate\":"
                            ++ (to_decimal request.sample_rate
                                ++ (codes ",\"audio_params\":{\"format\":\""
                                    ++ (escape_json_string request.audio_format
                                        ++ (codes "\",\"speech_rate\":"
                                            ++ (int_to_decimal request.speech_rate
                                                ++ (codes ",\"loudness_rate\":"
                                                    ++ (int_to_decimal request.loudness_rate
                                                        ++ codes "}}}")))))))))))))
