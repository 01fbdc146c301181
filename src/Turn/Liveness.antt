-- ===== src/Turn/Liveness.antt =====
-- voice_turn_state.h: what the result of `apply` means, and that no state is a dead end.
use qh_voice_kit.Base.{◌≤◌, true, List, [], ◌∷◌, length, All, ◌≡◌, refl, ◌≢◌, ◌⊎◌, ◌↔◌, arith}
use qh_voice_kit.Turn.{
  VoiceTurnState, unconfigured, connecting_wifi, syncing_clock, connecting_provider, idle,
  recording_and_streaming, waiting_response, playing, error, VoiceTurnEvent, config_loaded,
  config_cleared, wifi_connected, clock_synchronized, provider_connected, recording_cancelled,
  response_done, recover, apply, run,
}

-- `apply` returns true exactly when the state changes or the configuration is cleared (which at an
-- unconfigured machine changes nothing).
pub apply-eq-true_iff :
    (s : VoiceTurnState) (e : VoiceTurnEvent)
    → ((apply s e).1 ≡ true) ↔ (((apply s e).0 ≢ s) ⊎ (e ≡ config_cleared))
unfolding apply
apply-eq-true_iff s e = ground arith

-- In the error state every event but recovery and clearing is refused; recovery starts again at
-- the network.
pub error_absorbs :
    (es : List VoiceTurnEvent)
    → All (λ e. (e ≢ recover) × (e ≢ config_cleared)) es
    → run error es ≡ error
unfolding run apply
error_absorbs [] h = refl
error_absorbs (e ∷ es) (h, hs) = ground (arith, error_absorbs es hs)

abbrev setup : List VoiceTurnEvent
setup = config_loaded ∷ wifi_connected ∷ clock_synchronized ∷ provider_connected ∷ []

-- Events that lead from a state to the idle state.
way_to_idle : VoiceTurnState → List VoiceTurnEvent
way_to_idle unconfigured = setup
way_to_idle connecting_wifi = wifi_connected ∷ clock_synchronized ∷ provider_connected ∷ []
way_to_idle syncing_clock = clock_synchronized ∷ provider_connected ∷ []
way_to_idle connecting_provider = provider_connected ∷ []
way_to_idle idle = []
way_to_idle recording_and_streaming = recording_cancelled ∷ []
way_to_idle waiting_response = response_done ∷ []
way_to_idle playing = response_done ∷ []
way_to_idle error = recover ∷ wifi_connected ∷ clock_synchronized ∷ provider_connected ∷ []

-- From every state at most four events lead to the idle state, in which a recording can begin.
pub idle_reachable :
    (s : VoiceTurnState) → (es : List VoiceTurnEvent) × (run s es ≡ idle) × (length es ≤ 4)
unfolding run apply way_to_idle
idle_reachable s = (way_to_idle s, ground arith, ground arith)
