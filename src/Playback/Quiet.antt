-- ===== src/Playback/Quiet.antt =====
-- buffered_pcm_playback.h: `busy_` and `active_` against where the task and the main loop stand.
use qh_voice_kit.Base.{◌≡◌, refl, Bool, true, false, List, [], ◌∷◌, arith}
use qh_voice_kit.Playback.{System, Move, task_moves, client_moves, calls, step, steps}
use qh_voice_kit.Playback.Client.{ClientPoint, Call, client_step, enter}
use qh_voice_kit.Playback.Library.{Playback, PlaybackLibrary}
use qh_voice_kit.Playback.Task.{TaskPoint, task_step}

-- The points of the task between its two stores to `busy_`.
abbrev pub is_busy : TaskPoint → Bool
is_busy TaskPoint.take = true
is_busy (TaskPoint.test_active _) = true
is_busy (TaskPoint.emit _) = true
is_busy TaskPoint.drop = true
is_busy TaskPoint.release_starved = true
is_busy (TaskPoint.release _) = true
is_busy _ = false

abbrev pub is_emit : TaskPoint → Bool
is_emit (TaskPoint.emit _) = true
is_emit _ = false

pub emit_busy : (t : TaskPoint) → is_busy t ≡ false → is_emit t ≡ false
emit_busy (TaskPoint.emit _) h = absurd (cc h)
emit_busy _ h = ground arith

-- The points of `cancel` behind its wait, and its end, where it saw `busy_` false.
abbrev pub is_calm : ClientPoint → Bool
is_calm (ClientPoint.cancel_playing _ calm) = calm
is_calm (ClientPoint.cancel_drained _ calm) = calm
is_calm (ClientPoint.cancel_test _ calm) = calm
is_calm (ClientPoint.cancel_reset _ calm) = calm
is_calm (ClientPoint.cancelled calm) = calm
is_calm _ = false

-- These and the points before them, behind the store to `active_`.
abbrev pub is_stopped : ClientPoint → Bool
is_stopped (ClientPoint.cancel_input _) = true
is_stopped (ClientPoint.cancel_wait _ _) = true
is_stopped c = is_calm c

abbrev pub Ordered : {W : Type 0} → System W → Type 0
Ordered s =
    (s.shared.busy ≡ is_busy s.task)
    × (is_stopped s.client ≡ true → s.shared.active ≡ false)
    × (is_calm s.client ≡ true → is_emit s.task ≡ false)

enter-is_stopped : (c : Call) → is_stopped (enter c) ≡ false
enter-is_stopped (Call.enqueue pcm) = ground arith
enter-is_stopped _ = refl

enter-is_calm : (c : Call) → is_calm (enter c) ≡ false
enter-is_calm (Call.enqueue pcm) = ground arith
enter-is_calm _ = refl

module _ {W : Type 0} (library : PlaybackLibrary W) where
  task_step-Ordered :
      (t : TaskPoint) (c : ClientPoint) (p : Playback W)
      → Ordered (record { shared = p; task = t; client = c })
      → Ordered (step library task_moves (record { shared = p; task = t; client = c }))
  unfolding step task_step
  task_step-Ordered TaskPoint.top c p h = ground arith
  task_step-Ordered _ c p h = ground arith

  client_step-Ordered :
      (t : TaskPoint) (c : ClientPoint) (p : Playback W)
      → Ordered (record { shared = p; task = t; client = c })
      → Ordered (step library client_moves (record { shared = p; task = t; client = c }))
  unfolding step client_step
  client_step-Ordered t ClientPoint.turn_test p h = ground (arith, emit_busy t)
  client_step-Ordered t _ p h = ground (arith, emit_busy t)

  calls-Ordered :
      (m : Call) (t : TaskPoint) (c : ClientPoint) (p : Playback W)
      → Ordered (record { shared = p; task = t; client = c })
      → Ordered (step library (calls m) (record { shared = p; task = t; client = c }))
  unfolding step
  calls-Ordered m t (ClientPoint.outside _) p h =
      (h.0, λ e. absurd (cc (e, enter-is_stopped m)), λ e. absurd (cc (e, enter-is_calm m)))
  calls-Ordered m t (ClientPoint.cancelled _) p h =
      (h.0, λ e. absurd (cc (e, enter-is_stopped m)), λ e. absurd (cc (e, enter-is_calm m)))
  calls-Ordered m t _ p h = h

  step-Ordered : (m : Move) (s : System W) → Ordered s → Ordered (step library m s)
  step-Ordered task_moves s h = task_step-Ordered s.task s.client s.shared h
  step-Ordered client_moves s h = client_step-Ordered s.task s.client s.shared h
  step-Ordered (calls m) s h = calls-Ordered m s.task s.client s.shared h

  pub steps-Ordered :
      (moves : List Move) (s : System W) → Ordered s → Ordered (steps library moves s)
  unfolding steps
  steps-Ordered [] s h = h
  steps-Ordered (m ∷ moves) s h = steps-Ordered moves (step library m s) (step-Ordered m s h)
