-- ===== src/Tests/Buffer.antt =====
-- playback_buffer_policy.h at concrete calls.
use qh_voice_kit.Base.{◌≤◌, ◌+◌, List, [], ◌∷◌, arith}
use qh_voice_kit.Buffer.{PlaybackBufferPolicy, new_policy, begin_turn, on_input_done}
use qh_voice_kit.Buffer.Enqueue.{total}
use qh_voice_kit.Buffer.Policy.{
  Call, enqueued, consumed, playback_started, underrun, steps, bytes_in, bytes_out, Covered,
}

-- The newest call first.
abbrev turn : List Call
turn = consumed 300 ∷ underrun ∷ enqueued 200 ∷ consumed 500 ∷ playback_started ∷ enqueued 700 ∷ []

turn-Covered : Covered turn
unfolding bytes_in bytes_out
turn-Covered = omega arith

turn_small : bytes_in turn ≤ 1000
unfolding bytes_in
turn_small = omega arith

abbrev after : PlaybackBufferPolicy
after = steps turn (begin_turn (new_policy 512))

abbrev ended : PlaybackBufferPolicy
ended = on_input_done after

writes_small : 1024 + total (300 ∷ 724 ∷ []) ≤ 4294967295
unfolding total
writes_small = omega arith
