-- ===== src/Playback/Silence.antt =====
-- buffered_pcm_playback.h: what is heard once `cancel` has returned.
use qh_voice_kit.Base.{ℕ, ◌≡◌, refl, ◌∙◌, ap, Bool, true, false, List, [], ◌∷◌, arith, All}
use qh_voice_kit.Base.Bytes.{Bytes}
use qh_voice_kit.Playback.{System, Move, task_moves, client_moves, calls, step, steps}
use qh_voice_kit.Playback.Client.{
  ClientPoint, Call, call, client_step, enter, caller, turn, cancelled, outside,
}
use qh_voice_kit.Playback.Library.{Playback, PlaybackLibrary, new_playback}
use qh_voice_kit.Playback.Quiet.{is_stopped, is_calm, is_emit, Ordered, steps-Ordered}
use qh_voice_kit.Playback.Task.{TaskPoint, task_step}

-- The points of `beginTurn`.
abbrev pub is_turn : ClientPoint → Bool
is_turn ClientPoint.turn_test = true
is_turn ClientPoint.turn_reset = true
is_turn ClientPoint.turn_input = true
is_turn ClientPoint.turn_playing = true
is_turn ClientPoint.turn_drained = true
is_turn ClientPoint.turn_failed = true
is_turn ClientPoint.turn_stage = true
is_turn ClientPoint.turn_maximum = true
is_turn ClientPoint.turn_underruns = true
is_turn ClientPoint.turn_total = true
is_turn ClientPoint.turn_active = true
is_turn (ClientPoint.cancel_active turn) = true
is_turn (ClientPoint.cancel_input turn) = true
is_turn (ClientPoint.cancel_wait turn _) = true
is_turn (ClientPoint.cancel_playing turn _) = true
is_turn (ClientPoint.cancel_drained turn _) = true
is_turn (ClientPoint.cancel_test turn _) = true
is_turn (ClientPoint.cancel_reset turn _) = true
is_turn _ = false

abbrev pub is_begin : Move → Bool
is_begin (calls Call.begin_turn) = true
is_begin _ = false

-- Nothing is being played, and nothing begins to be.
abbrev pub Silent : {W : Type 0} → System W → Type 0
Silent s = (s.shared.active ≡ false) × (is_emit s.task ≡ false) × (is_turn s.client ≡ false)

-- What has been played: the calls of the stream buffer do not change it.
pub record Hears {W : Type 0} (library : PlaybackLibrary W) (heard : W → Bytes) : Type 0 where
  pub send : (pcm : Bytes) (w : W) → heard (library.send pcm w).1 ≡ heard w
  pub receive : (n : ℕ) (w : W) → heard (library.receive n w).1 ≡ heard w
  pub reset : (w : W) → heard (library.reset w).1 ≡ heard w

is_turn-enter : (m : Call) → is_begin (calls m) ≡ false → is_turn (enter m) ≡ false
is_turn-enter Call.begin_turn b = absurd (cc b)
is_turn-enter (Call.enqueue pcm) b = ground arith
is_turn-enter _ b = refl

is_turn-call :
    (m : Call) (c : ClientPoint)
    → is_begin (calls m) ≡ false
    → is_turn c ≡ false
    → is_turn (call m c) ≡ false
is_turn-call m (ClientPoint.outside _) b h = is_turn-enter m b
is_turn-call m (ClientPoint.cancelled _) b h = is_turn-enter m b
is_turn-call m _ b h = h

module _ {W : Type 0} (library : PlaybackLibrary W) (heard : W → Bytes)
    (laws : Hears library heard) where
  -- The step keeps the silence and what was heard.
  abbrev Kept : System W → System W → Type 0
  Kept s t = Silent t × (heard t.shared.world ≡ heard s.shared.world)

  task-Kept :
      (t : TaskPoint) (c : ClientPoint) (p : Playback W)
      → Silent (record { shared = p; task = t; client = c })
      → Kept
          (record { shared = p; task = t; client = c })
          (step library task_moves (record { shared = p; task = t; client = c }))
  unfolding step task_step
  task-Kept TaskPoint.take c p h = (h, laws.receive _ p.world)
  task-Kept (TaskPoint.emit chunk) c p h = absurd (cc h.1)
  task-Kept _ c p h = ground arith

  client-Kept :
      (t : TaskPoint) (c : ClientPoint) (p : Playback W)
      → Silent (record { shared = p; task = t; client = c })
      → Kept
          (record { shared = p; task = t; client = c })
          (step library client_moves (record { shared = p; task = t; client = c }))
  unfolding step client_step
  client-Kept t (ClientPoint.cancel_reset caller calm) p h = (h, laws.reset p.world)
  client-Kept t (ClientPoint.loop_send pcm progress attempts) p h =
      ((h.0, h.1, ground arith), laws.send _ p.world)
  client-Kept t _ p h = ground arith

  calls-Kept :
      (m : Call) (s : System W)
      → is_begin (calls m) ≡ false
      → Silent s
      → Silent (step library (calls m) s)
  unfolding step
  calls-Kept m s b h = (h.0, h.1, is_turn-call m s.client b h.2)

  step-Kept : (m : Move) (s : System W) → is_begin m ≡ false → Silent s → Kept s (step library m s)
  unfolding step
  step-Kept task_moves s b h = task-Kept s.task s.client s.shared h
  step-Kept client_moves s b h = client-Kept s.task s.client s.shared h
  step-Kept (calls m) s b h = (calls-Kept m s b h, refl)

  steps-heard :
      (moves : List Move) (s : System W)
      → All (λ m. is_begin m ≡ false) moves
      → Silent s
      → heard (steps library moves s).shared.world ≡ heard s.shared.world
  unfolding steps
  steps-heard [] s b h = refl
  steps-heard (m ∷ moves) s (b, more) h =
      let kept = step-Kept m s b h in steps-heard moves (step library m s) more kept.0 ∙ kept.1

-- A playback that `begin` has started.
abbrev pub started_system : {W : Type 0} → W → System W
started_system world = record {
  shared = record (new_playback world) { started = true };
  task = TaskPoint.top;
  client = outside true;
}

Silent-cancelled : {W : Type 0} (s : System W) → Ordered s → s.client ≡ cancelled true → Silent s
Silent-cancelled s h e = (h.1 (ap is_stopped e), h.2 (ap is_calm e), ap is_turn e)

-- Once `cancel` has returned, having seen the task not busy before its last attempt, nothing more is
-- played until the next `beginTurn`: in every order of the steps of the main loop and the task, with
-- any other calls in between, what was heard stays as it was. `heard` is any reading of the state of
-- the libraries that the calls of the stream buffer do not change.
pub heard-cancelled :
    {W : Type 0} (library : PlaybackLibrary W) (heard : W → Bytes)
    → Hears library heard
    → (world : W) (moves later : List Move)
    → (steps library moves (started_system world)).client ≡ cancelled true
    → All (λ m. is_begin m ≡ false) later
    → heard (steps library later (steps library moves (started_system world))).shared.world
      ≡ heard (steps library moves (started_system world)).shared.world
heard-cancelled library heard laws world moves later e b =
    let s = steps library moves (started_system world) in
    let ordered : Ordered s =
      steps-Ordered library moves (started_system world)
        (refl, λ f. absurd (cc f), λ f. absurd (cc f)) in
    steps-heard library heard laws later s b (Silent-cancelled s ordered e)
