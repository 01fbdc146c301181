-- ===== src/Tests/Button.antt =====
-- button_debouncer.h at a press of a button.
use qh_voice_kit.Base.{◌≡◌, refl, ◌≤◌, true, false, [], ◌∷◌, List, arith}
use qh_voice_kit.Base.Words.{sub32}
use qh_voice_kit.Button.{ButtonDebouncer, Sample, new_debouncer, begin, update, run}
use qh_voice_kit.Button.Stable.{Held, update-Held}

-- The button is up, bounces, and is held from 4294967290 on; the clock wraps.
abbrev press : List Sample
press = (false, 4) ∷ (false, 4294967290) ∷ (true, 4294967280) ∷ (false, 4294967270) ∷ (true, 0) ∷ []

abbrev up : ButtonDebouncer
up = new_debouncer false 20

abbrev before : ButtonDebouncer
before = run press up

reports : (update false 14 before).0 ≡ true
unfolding run update begin new_debouncer
reports = refl

too_early : (update false 13 before).0 ≡ false
unfolding run update begin new_debouncer
too_early = refl

update-Held_example :
    Held false before.candidate_since_ms press
    × (20 ≤ sub32 14 before.candidate_since_ms)
    × (before.stable_level ≡ true)
    × ((update false 14 before).1.stable_level ≡ false)
    × ((update false 14 before).1.changed_to_pressed ≡ true)
    × ((update false 14 before).1.changed_to_released ≡ false)
update-Held_example = update-Held false 20 press false 14 reports

abbrev read_up : ButtonDebouncer
read_up = run ((true, 0) ∷ []) up

read_up-initialized : (read_up.initialized ≡ true) × (read_up.candidate_level ≡ true)
unfolding run update begin new_debouncer
read_up-initialized = (refl, refl)

read_up-debounce_ms : read_up.debounce_ms ≤ sub32 30 10
unfolding run update begin new_debouncer
read_up-debounce_ms = omega arith
