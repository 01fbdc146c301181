-- ===== src/Button/Stable.antt =====
-- button_debouncer.h: reported changes and the samples before them.
use qh_voice_kit.Base.{
  bool_eq, ℕ, ◌≤◌, ◌≡◌, refl, Bool, true, false, not, List, [], ◌⊎◌, inl, inr, ◌∷◌, ◌++◌, arith,
  All,
}
use qh_voice_kit.Base.Words.{sub32}
use qh_voice_kit.Button.{ButtonDebouncer, Sample, new_debouncer, begin, update, run}

-- The newest samples, back to one at `since`, all read `level`.
pub data Held (level : Bool) (since : ℕ) : List Sample → Type 0 where
  starts : {earlier : List Sample} → Held level since ((level, since) ∷ earlier)
  continues :
      {now : ℕ} {earlier : List Sample}
      → Held level since earlier
      → Held level since ((level, now) ∷ earlier)

-- Reading the candidate level goes on with its history.
bool_eq_iff : (a b : Bool) → bool_eq a b ≡ true → a ≡ b
bool_eq_iff true true h = refl
bool_eq_iff true false h = cc
bool_eq_iff false true h = cc
bool_eq_iff false false h = refl

-- What holds of the state after the samples.
abbrev Tracks : ButtonDebouncer → List Sample → Type 0
Tracks d samples = d.initialized ≡ true → Held d.candidate_level d.candidate_since_ms samples

-- The candidate is the level read, since now or since before.
candidate-update :
    (level : Bool) (now : ℕ) (d : ButtonDebouncer)
    → let after = (update level now d).1 in
      (after.candidate_level ≡ level)
      × ((after.candidate_since_ms ≡ now)
          ⊎ ((after.candidate_since_ms ≡ d.candidate_since_ms)
              × (d.candidate_level ≡ level)
              × (d.initialized ≡ true)))
unfolding update begin
candidate-update level now d = ground (arith, bool_eq_iff level d.candidate_level)

sampled_now :
    {a b : Bool} {s t : ℕ} {earlier : List Sample} → a ≡ b → s ≡ t → Held a s ((b, t) ∷ earlier)
sampled_now ha hs = rw (ha, hs) starts

sampled_on :
    {a b c : Bool} {s r t : ℕ} {earlier : List Sample}
    → a ≡ b
    → s ≡ r
    → c ≡ b
    → Held c r earlier
    → Held a s ((b, t) ∷ earlier)
sampled_on ha hs hc h = rw (ha, hs) (continues (rw (← hc) h))

update-Tracks :
    (level : Bool) (now : ℕ) (samples : List Sample) (d : ButtonDebouncer)
    → Tracks d samples
    → Tracks (update level now d).1 ((level, now) ∷ samples)
update-Tracks level now samples d h hi =
    let (hc, rest) = candidate-update level now d in
    elim rest [ inl hs ↦ sampled_now hc hs | inr r ↦ sampled_on hc r.0 r.1 (h r.2) ]

run-Tracks :
    (p : Bool) (ms : ℕ) (samples : List Sample) → Tracks (run samples (new_debouncer p ms)) samples
unfolding run new_debouncer
run-Tracks p ms [] = λ h. cc
run-Tracks p ms ((level, now) ∷ samples) =
    update-Tracks level now samples (run samples (new_debouncer p ms)) (run-Tracks p ms samples)

-- The members that no call changes.
run-constant :
    (d : ButtonDebouncer) (samples : List Sample)
    → ((run samples d).debounce_ms ≡ d.debounce_ms)
      × ((run samples d).pressed_level ≡ d.pressed_level)
unfolding run update begin
run-constant d [] = (refl, refl)
run-constant d ((level, now) ∷ samples) = ground (arith, run-constant d samples)

bool_eq-not : (a b : Bool) → bool_eq a b ≡ false → b ≡ not a
bool_eq-not true true h = cc
bool_eq-not true false h = refl
bool_eq-not false true h = refl
bool_eq-not false false h = cc

-- What a report says of the state.
reported :
    (level : Bool) (now : ℕ) (d : ButtonDebouncer) (pressed_level : Bool) (debounce_ms : ℕ)
    → d.debounce_ms ≡ debounce_ms
    → d.pressed_level ≡ pressed_level
    → (update level now d).0 ≡ true
    → let after = (update level now d).1 in
      (d.initialized ≡ true)
      × (level ≡ d.candidate_level)
      × (debounce_ms ≤ sub32 now d.candidate_since_ms)
      × (d.stable_level ≡ not level)
      × (after.stable_level ≡ level)
      × (after.changed_to_pressed ≡ bool_eq level pressed_level)
      × (after.changed_to_released ≡ not (bool_eq level pressed_level))
unfolding update begin
reported level now d pressed_level debounce_ms km kp h =
    ground
      (arith, bool_eq_iff level d.candidate_level, bool_eq-not d.candidate_level d.stable_level)

-- After any samples read by a new debouncer, if `update` reports a change, then the level it was
-- given was read by all newest samples back to one at least `debounce_ms` before (modulo 2^32),
-- the level was not the stable one and now is, and exactly the flag of its direction is set.
pub update-Held :
    (pressed_level : Bool) (debounce_ms : ℕ) (samples : List Sample) (level : Bool) (now : ℕ)
    → let d = run samples (new_debouncer pressed_level debounce_ms) in
      let after = (update level now d).1 in
      (update level now d).0 ≡ true
      → Held level d.candidate_since_ms samples
        × (debounce_ms ≤ sub32 now d.candidate_since_ms)
        × (d.stable_level ≡ not level)
        × (after.stable_level ≡ level)
        × (after.changed_to_pressed ≡ bool_eq level pressed_level)
        × (after.changed_to_released ≡ not (bool_eq level pressed_level))
unfolding new_debouncer
update-Held pressed_level debounce_ms samples level now h =
    let d = run samples (new_debouncer pressed_level debounce_ms) in
    let (km, kp) = run-constant (new_debouncer pressed_level debounce_ms) samples in
    let (hi, hl, hm, ho, hs, hp, hr) = reported level now d pressed_level debounce_ms km kp h in
    (rw hl (run-Tracks pressed_level debounce_ms samples hi), hm, ho, hs, hp, hr)

-- The state while a level is held.
abbrev Holds : Bool → ℕ → ButtonDebouncer → Type 0
Holds level since d =
    (d.initialized ≡ true) × (d.candidate_level ≡ level) × (d.candidate_since_ms ≡ since)

bool_eq_refl : (a : Bool) → bool_eq a a ≡ true
bool_eq_refl true = refl
bool_eq_refl false = refl

update-Holds :
    (level : Bool) (since now : ℕ) (d : ButtonDebouncer)
    → Holds level since d
    → Holds level since (update level now d).1
unfolding update begin
update-Holds level since now d h = ground (arith, bool_eq_refl level)

-- The samples that all read the level.
abbrev pub Reads : Bool → List Sample → Type 0
Reads level = All (λ s. s.0 ≡ level)

bool_eq-other : (a : Bool) → bool_eq a (not a) ≡ false
bool_eq-other true = refl
bool_eq-other false = refl

run-Holds :
    (level : Bool) (since : ℕ) (held : List Sample) (d : ButtonDebouncer)
    → d.initialized ≡ true
    → d.candidate_level ≡ not level
    → Reads level held
    → Holds level since (run (held ++ ((level, since) ∷ [])) d)
unfolding run update
run-Holds level since [] d hi hc h = ground (arith, bool_eq-other level)
run-Holds level since ((l, now) ∷ held) d hi hc (hl, h) =
    rw (hl, run)
      (update-Holds level since now (run (held ++ ((level, since) ∷ [])) d)
        (run-Holds level since held d hi hc h))

stable-update :
    (level : Bool) (since now : ℕ) (d : ButtonDebouncer)
    → Holds level since d
    → d.debounce_ms ≤ sub32 now since
    → (update level now d).1.stable_level ≡ level
unfolding update begin
stable-update level since now d h hm =
    ground (arith, bool_eq_refl level, bool_eq_iff d.candidate_level d.stable_level)

-- When an initialized debouncer whose candidate is the other level reads a level, then only that
-- level, and reads it again at least `debounce_ms` (modulo 2^32) after the first time, that level is
-- the stable one.
pub stable-run :
    (level : Bool) (since now : ℕ) (held : List Sample) (d : ButtonDebouncer)
    → d.initialized ≡ true
    → d.candidate_level ≡ not level
    → Reads level held
    → d.debounce_ms ≤ sub32 now since
    → (run ((level, now) ∷ (held ++ ((level, since) ∷ []))) d).stable_level ≡ level
unfolding run
stable-run level since now held d hi hc h hm =
    let before = held ++ ((level, since) ∷ []) in
    stable-update level since now (run before d) (run-Holds level since held d hi hc h)
      (rw (run-constant d before).0 hm)
