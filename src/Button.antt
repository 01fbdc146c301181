-- ===== src/Button.antt =====
-- firmware/esp32_voice_kit/button_debouncer.h: a level becomes the stable one when it has been read
-- for `debounce_ms` without a change. Time is the 32-bit count of milliseconds, which wraps.
pub mod Stable
use qh_voice_kit.Base.{bool_eq, ℕ, Bool, true, false, not, ◌||◌, List, [], ◌∷◌, ltb, if◌then◌else◌}
use qh_voice_kit.Base.Words.{sub32}

pub record ButtonDebouncer : Type 0 where
  pub pressed_level : Bool
  pub debounce_ms : ℕ
  pub initialized : Bool
  pub stable_level : Bool
  pub candidate_level : Bool
  pub candidate_since_ms : ℕ
  pub changed_to_pressed : Bool
  pub changed_to_released : Bool

unfoldable pub new_debouncer : Bool → ℕ → ButtonDebouncer
new_debouncer pressed_level debounce_ms = record {
  pressed_level = pressed_level;
  debounce_ms = debounce_ms;
  initialized = false;
  stable_level = false;
  candidate_level = false;
  candidate_since_ms = 0;
  changed_to_pressed = false;
  changed_to_released = false;
}

unfoldable pub begin : Bool → ℕ → ButtonDebouncer → ButtonDebouncer
begin raw_level now_ms d = record d {
  initialized = true;
  stable_level = raw_level;
  candidate_level = raw_level;
  candidate_since_ms = now_ms;
  changed_to_pressed = false;
  changed_to_released = false;
}

-- The state is the one after the call, and the first component what it returns.
unfoldable pub update : Bool → ℕ → ButtonDebouncer → Bool × ButtonDebouncer
unfolding begin
update raw_level now_ms d0 =
    let d = record d0 { changed_to_pressed = false; changed_to_released = false } in
    if not d.initialized
    then (false, begin raw_level now_ms d)
    else if not (bool_eq raw_level d.candidate_level)
    then (false, record d { candidate_level = raw_level; candidate_since_ms = now_ms })
    else if bool_eq d.candidate_level d.stable_level
        || ltb (sub32 now_ms d.candidate_since_ms) d.debounce_ms
    then (false, d)
    else let pressed = bool_eq d.candidate_level d.pressed_level in
      (
        true,
        record d {
          stable_level = d.candidate_level;
          changed_to_pressed = pressed;
          changed_to_released = not pressed;
        },
      )

-- A level read at a time, and the state after a sequence of them, the newest first.
abbrev pub Sample : Type 0
Sample = Bool × ℕ

unfoldable pub run : List Sample → ButtonDebouncer → ButtonDebouncer
unfolding update
run [] d = d
run ((level, now) ∷ earlier) d = (update level now (run earlier d)).1
