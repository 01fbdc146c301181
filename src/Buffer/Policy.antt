-- ===== src/Buffer/Policy.antt =====
-- playback_buffer_policy.h: `PlaybackBufferPolicy` after any calls of a turn.
use qh_voice_kit.Base.{ℕ, ◌+◌, ◌≤◌, ◌<◌, ◌^◌, ◌≡◌, true, false, List, [], ◌∷◌, ◌⊎◌, arith}
use qh_voice_kit.Buffer.{
  PlaybackBufferPolicy, begin_turn, on_enqueued, should_start, on_playback_started, on_consumed,
  on_input_done, on_underrun, drained,
}

pub data Call : Type 0 where
  enqueued consumed : ℕ → Call
  playback_started input_done underrun : Call

unfoldable pub step : Call → PlaybackBufferPolicy → PlaybackBufferPolicy
unfolding on_enqueued on_consumed on_playback_started on_input_done on_underrun
step (enqueued n) = on_enqueued n
step (consumed n) = on_consumed n
step playback_started = on_playback_started
step input_done = on_input_done
step underrun = on_underrun

-- The state after the calls, the newest first.
unfoldable pub steps : List Call → PlaybackBufferPolicy → PlaybackBufferPolicy
unfolding step
steps [] p = p
steps (c ∷ earlier) p = step c (steps earlier p)

-- The bytes put in and taken out.
unfoldable pub bytes_in : List Call → ℕ
bytes_in [] = 0
bytes_in (enqueued n ∷ earlier) = n + bytes_in earlier
bytes_in (_ ∷ earlier) = bytes_in earlier

unfoldable pub bytes_out : List Call → ℕ
bytes_out [] = 0
bytes_out (consumed n ∷ earlier) = n + bytes_out earlier
bytes_out (_ ∷ earlier) = bytes_out earlier

-- No call takes out more than is there.
abbrev pub Covered : List Call → Type 0
Covered [] = Unit
Covered (consumed n ∷ earlier) = (n + bytes_out earlier ≤ bytes_in earlier) × Covered earlier
Covered (_ ∷ earlier) = Covered earlier

-- When a turn puts in fewer than 2^32 bytes and no call takes out more than is there, what is
-- queued and what was taken out add up to what was put in.
pub queued_bytes-steps :
    (p : PlaybackBufferPolicy) (calls : List Call)
    → Covered calls
    → bytes_in calls < 2 ^ 32
    → (steps calls (begin_turn p)).queued_bytes + bytes_out calls ≡ bytes_in calls
unfolding steps step begin_turn bytes_in bytes_out on_enqueued on_consumed on_playback_started
    on_input_done on_underrun
queued_bytes-steps p [] hc h = ground arith
queued_bytes-steps p (enqueued n ∷ earlier) hc h = ground (arith, queued_bytes-steps p earlier)
queued_bytes-steps p (consumed n ∷ earlier) hc h = ground (arith, queued_bytes-steps p earlier)
queued_bytes-steps p (playback_started ∷ earlier) hc h = queued_bytes-steps p earlier hc h
queued_bytes-steps p (input_done ∷ earlier) hc h = queued_bytes-steps p earlier hc h
queued_bytes-steps p (underrun ∷ earlier) hc h = queued_bytes-steps p earlier hc h

-- Whatever is called, no more is queued than the recorded maximum, which is at most what was put in.
pub maximum_queued_bytes-steps :
    (p : PlaybackBufferPolicy) (calls : List Call)
    → let after = steps calls (begin_turn p) in
      (after.queued_bytes ≤ after.maximum_queued_bytes)
      × (after.maximum_queued_bytes ≤ bytes_in calls)
unfolding steps step begin_turn bytes_in on_enqueued on_consumed on_playback_started on_input_done
    on_underrun
maximum_queued_bytes-steps p [] = ground arith
maximum_queued_bytes-steps p (enqueued n ∷ earlier) =
    ground (arith, maximum_queued_bytes-steps p earlier)
maximum_queued_bytes-steps p (consumed n ∷ earlier) =
    ground (arith, maximum_queued_bytes-steps p earlier)
maximum_queued_bytes-steps p (playback_started ∷ earlier) = maximum_queued_bytes-steps p earlier
maximum_queued_bytes-steps p (input_done ∷ earlier) = maximum_queued_bytes-steps p earlier
maximum_queued_bytes-steps p (underrun ∷ earlier) = maximum_queued_bytes-steps p earlier

-- In every state in which the input is done, the turn is drained, or it plays, or it starts when
-- asked; and when the queued bytes are consumed it is drained.
pub drained-or_plays :
    (p : PlaybackBufferPolicy)
    → let done = on_input_done p in
      ((drained done ≡ true) ⊎ ((done.playing ≡ true) ⊎ (should_start done ≡ true)))
      × (drained (on_consumed done.queued_bytes done) ≡ true)
unfolding drained should_start on_input_done on_consumed
drained-or_plays p = ground arith

-- Playback does not start while it plays, or with nothing queued, or below the watermark before the
-- input is done; it does start otherwise.
pub should_start-on_underrun :
    (p : PlaybackBufferPolicy)
    → should_start p ≡ true
    → (should_start (on_playback_started p) ≡ false)
      × (should_start (on_underrun (on_playback_started p)) ≡ true)
unfolding should_start on_playback_started on_underrun
should_start-on_underrun p h = ground arith
