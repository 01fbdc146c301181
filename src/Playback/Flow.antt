-- ===== src/Playback/Flow.antt =====
-- buffered_pcm_playback.h: the way of the bytes of a turn, from `enqueue` to the output.
use qh_voice_kit.Base.{ℕ, ◌≡◌, Bool, true, false, [], ◌++◌, arith, take}
use qh_voice_kit.Base.Bytes.{Bytes}
use qh_voice_kit.Playback.{System, Move, task_moves, client_moves, calls, step}
use qh_voice_kit.Playback.Client.{ClientPoint, Call, call, client_step}
use qh_voice_kit.Playback.Library.{Playback, PlaybackLibrary}
use qh_voice_kit.Playback.Task.{TaskPoint, task_step}

-- What is queued and what was heard, and how the calls change them: the queue is first in, first
-- out, `send` may take only the start of a block, and the output takes whole blocks.
pub record Streams {W : Type 0} (library : PlaybackLibrary W) (queued heard : W → Bytes)
    : Type 0 where
  pub send_queued :
      (pcm : Bytes) (w : W)
      → queued (library.send pcm w).1 ≡ queued w ++ take (library.send pcm w).0 pcm
  pub send_heard : (pcm : Bytes) (w : W) → heard (library.send pcm w).1 ≡ heard w
  pub receive_queued :
      (n : ℕ) (w : W) → (library.receive n w).0 ++ queued (library.receive n w).1 ≡ queued w
  pub receive_heard : (n : ℕ) (w : W) → heard (library.receive n w).1 ≡ heard w
  pub write_queued : (pcm : Bytes) (w : W) → queued (library.write pcm w).1 ≡ queued w
  pub write_heard : (pcm : Bytes) (w : W) → heard (library.write pcm w).1 ≡ heard w ++ pcm

-- The block that the task holds.
abbrev pub hand : TaskPoint → Bytes
hand (TaskPoint.test_active chunk) = chunk
hand (TaskPoint.emit chunk) = chunk
hand _ = []

-- The points from the test of `active_` to the next, where the task takes a block.
abbrev pub is_running : TaskPoint → Bool
is_running TaskPoint.measure = true
is_running (TaskPoint.test_playing _) = true
is_running (TaskPoint.test_input _) = true
is_running (TaskPoint.test_input_again _) = true
is_running TaskPoint.start = true
is_running TaskPoint.claim = true
is_running TaskPoint.take = true
is_running (TaskPoint.test_active _) = true
is_running _ = false

-- The points outside of `beginTurn` and `cancel`.
abbrev pub is_inside : ClientPoint → Bool
is_inside (ClientPoint.outside _) = true
is_inside ClientPoint.finish_test = true
is_inside ClientPoint.finish_store = true
is_inside (ClientPoint.enqueue_active _) = true
is_inside (ClientPoint.enqueue_input _) = true
is_inside ClientPoint.enqueue_refused = true
is_inside (ClientPoint.loop_active _ _ _) = true
is_inside (ClientPoint.loop_input _ _ _) = true
is_inside (ClientPoint.loop_failed _ _ _) = true
is_inside (ClientPoint.loop_send _ _ _) = true
is_inside (ClientPoint.add_total _ _ _) = true
is_inside (ClientPoint.add_maximum _ _ _) = true
is_inside (ClientPoint.ended _) = true
is_inside ClientPoint.fail_stage = true
is_inside ClientPoint.fail_flag = true
is_inside (ClientPoint.report_stage _) = true
is_inside (ClientPoint.report_flag _) = true
is_inside _ = false

-- The calls of a turn.
abbrev pub is_turn_move : Move → Bool
is_turn_move (calls Call.begin_turn) = false
is_turn_move (calls Call.cancel) = false
is_turn_move _ = true

abbrev pub InTurn : {W : Type 0} → System W → Type 0
InTurn s = (is_inside s.client ≡ true) × (is_running s.task ≡ true → s.shared.active ≡ true)

module _ {W : Type 0} (library : PlaybackLibrary W) where
  task-InTurn :
      (t : TaskPoint) (c : ClientPoint) (p : Playback W)
      → InTurn (record { shared = p; task = t; client = c })
      → InTurn (step library task_moves (record { shared = p; task = t; client = c }))
  unfolding step task_step
  task-InTurn TaskPoint.top c p h = ground arith
  task-InTurn _ c p h = ground arith

  client-InTurn :
      (t : TaskPoint) (c : ClientPoint) (p : Playback W)
      → InTurn (record { shared = p; task = t; client = c })
      → InTurn (step library client_moves (record { shared = p; task = t; client = c }))
  unfolding step client_step
  client-InTurn t ClientPoint.finish_test p h = ground arith
  client-InTurn t _ p h = ground arith

  is_inside-call :
      (m : Call) (c : ClientPoint)
      → is_turn_move (calls m) ≡ true
      → is_inside c ≡ true
      → is_inside (call m c) ≡ true
  is_inside-call (Call.enqueue pcm) (ClientPoint.outside _) b h = ground arith
  is_inside-call m (ClientPoint.outside _) b h = ground arith
  is_inside-call m _ b h = ground arith

  pub step-InTurn :
      (m : Move) (s : System W) → is_turn_move m ≡ true → InTurn s → InTurn (step library m s)
  unfolding step
  step-InTurn task_moves s b h = task-InTurn s.task s.client s.shared h
  step-InTurn client_moves s b h = client-InTurn s.task s.client s.shared h
  step-InTurn (calls m) s b h = (is_inside-call m s.client b h.0, h.1)
