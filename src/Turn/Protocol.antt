-- ===== src/Turn/Protocol.antt =====
-- voice_turn_state.h: the protocol of a conversation, as an invariant over all event sequences.
use mathlib.Core.List.{append-nil, append_assoc}
use qh_voice_kit.Base.{ℕ, zero, suc, length, take, List, [], ◌∷◌, ◌++◌, ◌≡◌, ◌⊎◌, inl, inr, arith}
use qh_voice_kit.Turn.{
  VoiceTurnState, unconfigured, connecting_wifi, syncing_clock, connecting_provider, idle,
  recording_and_streaming, waiting_response, playing, error, VoiceTurnEvent, config_loaded,
  wifi_connected, clock_synchronized, provider_connected, button_pressed, button_released,
  output_audio_started, apply, run,
}

-- The first list is what is left of the second when some of its elements are dropped.
pub data Subsequence {ℓ} {A : Type ℓ} : List A → List A → Type ℓ where
  nil : Subsequence [] []
  keep : {x : A} {xs ys : List A} → Subsequence xs ys → Subsequence (x ∷ xs) (x ∷ ys)
  skip : {y : A} {xs ys : List A} → Subsequence xs ys → Subsequence xs (y ∷ ys)

module _ {ℓ} {A : Type ℓ} where
  Subsequence-later : {xs ys : List A} (e : A) → Subsequence xs ys → Subsequence xs (ys ++ e ∷ [])
  Subsequence-later e nil = skip nil
  Subsequence-later e (keep s) = keep (Subsequence-later e s)
  Subsequence-later e (skip s) = skip (Subsequence-later e s)

  Subsequence-both :
      {xs ys : List A} (e : A) → Subsequence xs ys → Subsequence (xs ++ e ∷ []) (ys ++ e ∷ [])
  Subsequence-both e nil = keep nil
  Subsequence-both e (keep s) = keep (Subsequence-both e s)
  Subsequence-both e (skip s) = skip (Subsequence-both e s)

  Subsequence-nil : (ys : List A) → Subsequence [] ys
  Subsequence-nil [] = nil
  Subsequence-nil (y ∷ ys) = skip (Subsequence-nil ys)

  Subsequence-take : (n : ℕ) {xs ys : List A} → Subsequence xs ys → Subsequence (take n xs) ys
  Subsequence-take zero {ys = ys} s = Subsequence-nil ys
  Subsequence-take (suc n) nil = nil
  Subsequence-take (suc n) (keep s) = keep (Subsequence-take n s)
  Subsequence-take (suc n) (skip s) = skip (Subsequence-take (suc n) s)

-- The events that must have come, in this order, before the machine is in a state.
abbrev pub required : VoiceTurnState → List VoiceTurnEvent
required unconfigured = []
required connecting_wifi = config_loaded ∷ []
required syncing_clock = config_loaded ∷ wifi_connected ∷ []
required connecting_provider = config_loaded ∷ wifi_connected ∷ clock_synchronized ∷ []
required idle = config_loaded ∷ wifi_connected ∷ clock_synchronized ∷ provider_connected ∷ []
required recording_and_streaming =
    config_loaded ∷ wifi_connected ∷ clock_synchronized ∷ provider_connected ∷ button_pressed ∷ []
required waiting_response =
    config_loaded ∷ wifi_connected ∷ clock_synchronized ∷ provider_connected ∷ button_pressed
    ∷ button_released ∷ []
required playing =
    config_loaded ∷ wifi_connected ∷ clock_synchronized ∷ provider_connected ∷ button_pressed
    ∷ button_released ∷ output_audio_started ∷ []
required error = config_loaded ∷ []

-- One event asks for nothing new, or for itself.
apply-required :
    (s : VoiceTurnState) (e : VoiceTurnEvent)
    → let t = (apply s e).0 in
      (required t ≡ take (length (required t)) (required s)) ⊎ (required t ≡ required s ++ e ∷ [])
unfolding apply
apply-required s e = ground arith

required-append :
    (s : VoiceTurnState) (e : VoiceTurnEvent) (history : List VoiceTurnEvent)
    → Subsequence (required s) history
    → Subsequence (required (apply s e).0) (history ++ e ∷ [])
required-append s e history h = elim (apply-required s e) [
  | inl less ↦ rw less (Subsequence-later e (Subsequence-take _ h))
  | inr more ↦ rw more (Subsequence-both e h)
]

run-required :
    (es : List VoiceTurnEvent) (s : VoiceTurnState) (history : List VoiceTurnEvent)
    → Subsequence (required s) history
    → Subsequence (required (run s es)) (history ++ es)
unfolding run
run-required [] s history h = rw append-nil h
run-required (e ∷ es) s history h =
    rw (← append_assoc history (e ∷ []) es)
      (run-required es (apply s e).0 (history ++ e ∷ []) (required-append s e history h))

-- Whatever calls a new machine has had, the events that its state asks for were among them, in that
-- order: it records only after set-up and a press, and plays only after a release and a start.
pub run-Subsequence-required :
    (es : List VoiceTurnEvent) → Subsequence (required (run unconfigured es)) es
run-Subsequence-required es = run-required es unconfigured [] nil
