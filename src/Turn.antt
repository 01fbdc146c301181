-- ===== src/Turn.antt =====
-- firmware/esp32_voice_kit/voice_turn_state.h: `VoiceTurnMachine`, the state of one conversation.
-- The machine's only field is its state, so `apply` takes the state and returns the new one beside
-- the method's `bool`. Its children: the protocol that it follows, and what each call reports.
pub mod Protocol
pub mod Liveness
use qh_voice_kit.Base.{ℕ, Bool, true, false, ◌||◌, List, [], ◌∷◌, ◌==◌, if◌then◌else◌}
use qh_voice_kit.Base.Bytes.{Bytes, codes}

pub data VoiceTurnState : Type 0 where
  unconfigured connecting_wifi syncing_clock connecting_provider idle : VoiceTurnState
  recording_and_streaming waiting_response playing error : VoiceTurnState

pub data VoiceTurnEvent : Type 0 where
  config_loaded config_cleared wifi_connected clock_synchronized provider_connected : VoiceTurnEvent
  button_pressed button_released recording_cancelled output_audio_started : VoiceTurnEvent
  response_done failure recover : VoiceTurnEvent

-- The enumerators' values, by which C++ compares them.
abbrev pub state_value : VoiceTurnState → ℕ
state_value unconfigured = 0
state_value connecting_wifi = 1
state_value syncing_clock = 2
state_value connecting_provider = 3
state_value idle = 4
state_value recording_and_streaming = 5
state_value waiting_response = 6
state_value playing = 7
state_value error = 8

abbrev pub is_state : VoiceTurnState → VoiceTurnState → Bool
is_state s t = state_value s == state_value t

unfoldable pub voice_turn_state_name : VoiceTurnState → Bytes
voice_turn_state_name unconfigured = codes "unconfigured"
voice_turn_state_name connecting_wifi = codes "connecting_wifi"
voice_turn_state_name syncing_clock = codes "syncing_clock"
voice_turn_state_name connecting_provider = codes "connecting_provider"
voice_turn_state_name idle = codes "idle"
voice_turn_state_name recording_and_streaming = codes "recording_and_streaming"
voice_turn_state_name waiting_response = codes "waiting_response"
voice_turn_state_name playing = codes "playing"
voice_turn_state_name error = codes "error"

-- The `switch` of `apply`: the value of `next` behind it.
next_state : VoiceTurnState → VoiceTurnEvent → VoiceTurnState
next_state unconfigured config_loaded = connecting_wifi
next_state connecting_wifi wifi_connected = syncing_clock
next_state syncing_clock clock_synchronized = connecting_provider
next_state connecting_provider provider_connected = idle
next_state idle button_pressed = recording_and_streaming
next_state recording_and_streaming button_released = waiting_response
next_state recording_and_streaming recording_cancelled = idle
next_state waiting_response output_audio_started = playing
next_state waiting_response response_done = idle
next_state playing response_done = idle
next_state error recover = connecting_wifi
next_state s _ = s

unfoldable pub apply : VoiceTurnState → VoiceTurnEvent → VoiceTurnState × Bool
unfolding next_state
apply s config_cleared = (unconfigured, true)
apply s failure = if is_state s unconfigured || is_state s error then (s, false) else (error, true)
apply s e = let next = next_state s e in if is_state next s then (s, false) else (next, true)

-- The calls of a client, in order.
unfoldable pub run : VoiceTurnState → List VoiceTurnEvent → VoiceTurnState
run s [] = s
run s (e ∷ es) = run (apply s e).0 es
