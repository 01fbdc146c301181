-- ===== src/Tests/Turn.antt =====
-- voice_turn_state.h at concrete event sequences.
use qh_voice_kit.Base.{List, [], ◌∷◌, ◌≡◌, refl}
use qh_voice_kit.Turn.{
  VoiceTurnEvent, unconfigured, playing, config_loaded, config_cleared, wifi_connected,
  clock_synchronized, provider_connected, button_pressed, button_released, output_audio_started,
  failure, apply, run,
}
use qh_voice_kit.Turn.Protocol.{Subsequence, required, run-Subsequence-required}

-- A noisy start, with a refused press and a failed attempt, up to playback.
abbrev session : List VoiceTurnEvent
session =
    button_pressed ∷ config_loaded ∷ failure ∷ config_cleared ∷ config_loaded ∷ wifi_connected
    ∷ clock_synchronized ∷ provider_connected ∷ button_pressed ∷ button_released
    ∷ output_audio_started ∷ []

session_plays : run unconfigured session ≡ playing
unfolding run apply
session_plays = refl

run-Subsequence-required_example : Subsequence (required (run unconfigured session)) session
run-Subsequence-required_example = run-Subsequence-required session
