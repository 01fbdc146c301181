-- ===== src/Buffer/Enqueue.antt =====
-- playback_buffer_policy.h: `PlaybackEnqueueProgress` after any writes.
use qh_voice_kit.Base.{ℕ, ◌+◌, ◌≤◌, ◌<◌, ◌^◌, ◌≡◌, true, List, [], ◌∷◌, min, arith, ◌↔◌}
use qh_voice_kit.Buffer.{
  PlaybackEnqueueProgress, new_progress, record_sent, complete, remaining_bytes,
}

-- The state after the writes, the newest first, and their sum.
unfoldable pub record_all : List ℕ → PlaybackEnqueueProgress → PlaybackEnqueueProgress
unfolding record_sent
record_all [] p = p
record_all (bytes ∷ earlier) p = record_sent bytes (record_all earlier p)

unfoldable pub total : List ℕ → ℕ
total [] = 0
total (bytes ∷ earlier) = bytes + total earlier

record_all-exact :
    (target : ℕ) (writes : List ℕ)
    → target + total writes < 2 ^ 32
    → ((record_all writes (new_progress target)).target_bytes ≡ target)
      × ((record_all writes (new_progress target)).sent_bytes ≡ min target (total writes))
unfolding record_all record_sent total
record_all-exact target [] h = ground arith
record_all-exact target (bytes ∷ earlier) h = ground (arith, record_all-exact target earlier)

-- When the block and the writes together are shorter than 2^32 bytes, the progress is complete
-- exactly when the writes add up to the block, and what remains is the rest of it.
pub complete-record_all :
    (target : ℕ) (writes : List ℕ)
    → target + total writes < 2 ^ 32
    → let p = record_all writes (new_progress target) in
      ((complete p ≡ true) ↔ (target ≤ total writes))
      × (remaining_bytes p + min target (total writes) ≡ target)
unfolding complete remaining_bytes
complete-record_all target writes h = ground (arith, record_all-exact target writes)
