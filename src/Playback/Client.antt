-- ===== src/Playback/Client.antt =====
-- buffered_pcm_playback.h: `beginTurn`, `enqueue`, `finishInput`, `cancel` and `reportFailure`, one
-- access at a time.
use qh_voice_kit.Base.{
  ℕ, ◌+◌, Bool, true, false, not, ◌&&◌, ◌||◌, max, leb, ◌==◌, if◌then◌else◌, length, take, drop,
}
use qh_voice_kit.Base.Bytes.{Bytes, is_empty}
use qh_voice_kit.Base.Words.{add_size}
use qh_voice_kit.Buffer.{
  PlaybackFailureStage, none, buffer_turn_start, buffer_enqueue, PlaybackEnqueueProgress,
  new_progress, record_sent, complete, remaining_bytes,
}
use qh_voice_kit.Playback.Library.{Playback, PlaybackLibrary}

pub data Call : Type 0 where
  begin_turn finish_input cancel : Call
  enqueue : Bytes → Call
  report_failure : PlaybackFailureStage → Call

-- What `cancel` goes back to: its caller, or the `beginTurn` that it stands in.
pub data After : Type 0 where
  caller turn : After

-- Where the main loop stands. `outside result` is outside of every method, with the last result.
-- Once `cancel` has waited, `calm` says that it saw `busy_` false before its last attempt.
pub data ClientPoint : Type 0 where
  outside : Bool → ClientPoint
  turn_test turn_fail turn_reset turn_input turn_playing turn_drained turn_failed : ClientPoint
  turn_stage turn_maximum turn_underruns turn_total turn_active : ClientPoint
  cancel_active cancel_input : After → ClientPoint
  cancel_wait : After → ℕ → ClientPoint
  cancel_playing cancel_drained cancel_test cancel_reset : After → Bool → ClientPoint
  cancelled : Bool → ClientPoint
  finish_test finish_store : ClientPoint
  enqueue_active enqueue_input : Bytes → ClientPoint
  enqueue_refused : ClientPoint
  loop_active loop_input loop_failed loop_send : Bytes → PlaybackEnqueueProgress → ℕ → ClientPoint
  add_total add_maximum : Bytes → PlaybackEnqueueProgress → ℕ → ClientPoint
  ended : PlaybackEnqueueProgress → ClientPoint
  fail_stage fail_flag : ClientPoint
  report_stage report_flag : PlaybackFailureStage → ClientPoint

abbrev pub is_no_failure : PlaybackFailureStage → Bool
is_no_failure none = true
is_no_failure _ = false

abbrev pub max_no_progress_attempts : ℕ
max_no_progress_attempts = 8

-- The first test of the method that is called.
abbrev pub enter : Call → ClientPoint
enter begin_turn = turn_test
enter finish_input = finish_test
enter cancel = cancel_active caller
enter (report_failure stage) = report_stage stage
enter (enqueue pcm) = if is_empty pcm then enqueue_refused else enqueue_active pcm

abbrev pub call : Call → ClientPoint → ClientPoint
call c (outside _) = enter c
call c (cancelled _) = enter c
call _ point = point

-- Where `cancel` ends.
abbrev pub leave_cancel : After → Bool → ClientPoint
leave_cancel caller calm = cancelled calm
leave_cancel turn calm = turn_reset

module _ {W : Type 0} (library : PlaybackLibrary W) where
  unfoldable pub client_step : ClientPoint → Playback W → ClientPoint × Playback W
  client_step (outside result) p = (outside result, p)
  client_step (cancelled calm) p = (cancelled calm, p)
  client_step turn_test p = (if not p.started || p.active then turn_fail else cancel_active turn, p)
  client_step turn_fail p = (outside false, record p { failure_stage = buffer_turn_start })
  client_step turn_reset p =
      let (passed, world) = library.reset p.world in
      (if passed then turn_input else turn_fail, record p { world = world })
  client_step turn_input p = (turn_playing, record p { input_done = false })
  client_step turn_playing p = (turn_drained, record p { playing = false })
  client_step turn_drained p = (turn_failed, record p { drained = false })
  client_step turn_failed p = (turn_stage, record p { failed = false })
  client_step turn_stage p = (turn_maximum, record p { failure_stage = none })
  client_step turn_maximum p = (turn_underruns, record p { maximum_queued_bytes = 0 })
  client_step turn_underruns p = (turn_total, record p { underrun_count = 0 })
  client_step turn_total p = (turn_active, record p { total_enqueued_bytes = 0 })
  client_step turn_active p = (outside true, record p { active = true })
  client_step (cancel_active k) p = (cancel_input k, record p { active = false })
  client_step (cancel_input k) p = (cancel_wait k 0, record p { input_done = true })
  client_step (cancel_wait k attempt) p = (
    if leb 150 attempt
        then cancel_playing k false
        else if p.busy
        then cancel_wait k (attempt + 1)
        else cancel_playing k true,
    p,
  )
  client_step (cancel_playing k calm) p = (cancel_drained k calm, record p { playing = false })
  client_step (cancel_drained k calm) p = (cancel_test k calm, record p { drained = false })
  client_step (cancel_test k calm) p =
      (if p.started && not p.busy then cancel_reset k calm else leave_cancel k calm, p)
  client_step (cancel_reset k calm) p =
      (leave_cancel k calm, record p { world = (library.reset p.world).1 })
  client_step finish_test p = (if p.active then finish_store else outside true, p)
  client_step finish_store p = (outside true, record p { input_done = true })
  client_step (enqueue_active pcm) p = (if p.active then enqueue_input pcm else enqueue_refused, p)
  client_step (enqueue_input pcm) p =
      (if p.input_done then enqueue_refused else loop_active pcm (new_progress (length pcm)) 0, p)
  client_step enqueue_refused p = (outside false, record p { failure_stage = buffer_enqueue })
  client_step (loop_active pcm progress attempts) p = (
    if not (complete progress) && p.active
        then loop_input pcm progress attempts
        else ended progress,
    p,
  )
  client_step (loop_input pcm progress attempts) p =
      (if p.input_done then ended progress else loop_failed pcm progress attempts, p)
  client_step (loop_failed pcm progress attempts) p =
      (if p.failed then ended progress else loop_send pcm progress attempts, p)
  client_step (loop_send pcm progress attempts) p =
      let block = take (remaining_bytes progress) (drop progress.sent_bytes pcm) in
      let (sent, world) = library.send block p.world in
      (
        if sent == 0
            then if leb max_no_progress_attempts (attempts + 1)
              then ended progress
              else loop_active pcm progress (attempts + 1)
            else add_total pcm (record_sent sent progress) sent,
        record p { world = world },
      )
  client_step (add_total pcm progress sent) p = (
    add_maximum pcm progress sent,
    record p { total_enqueued_bytes = add_size p.total_enqueued_bytes sent },
  )
  -- Only the main loop writes the maximum, so that its exchange succeeds.
  client_step (add_maximum pcm progress sent) p = (
    loop_active pcm progress 0,
    record p {
      maximum_queued_bytes = max p.maximum_queued_bytes (library.bytes_available p.world);
    },
  )
  client_step (ended progress) p = (
    if complete progress then outside true else if p.failed then outside false else fail_stage,
    p,
  )
  client_step fail_stage p = (fail_flag, record p { failure_stage = buffer_enqueue })
  client_step fail_flag p = (outside false, record p { failed = true })
  client_step (report_stage stage) p = (report_flag stage, record p { failure_stage = stage })
  client_step (report_flag stage) p =
      (outside true, record p { failed = not (is_no_failure stage) })
