-- ===== src/Playback/Drain.antt =====
-- buffered_pcm_playback.h: the task once the input is complete.
use mathlib.Core.List.{append-nil, append_assoc}
use qh_voice_kit.Base.{
  ℕ, zero, suc, ◌+◌, ◌-◌, ◌≤◌, ◌<◌, ◌≡◌, refl, sym, ap, ◌∙◌, true, false, List, [], ◌∷◌, ◌++◌,
  arith, ◌==◌, if◌then◌else◌, length, take, drop, length-drop, take-append-drop, Bool-cases, inl,
  inr,
}
use qh_voice_kit.Base.Bytes.{Bytes, is_empty}
use qh_voice_kit.Playback.{System, Move, task_moves, step, steps}
use qh_voice_kit.Playback.Client.{ClientPoint}
use qh_voice_kit.Playback.Library.{Playback, PlaybackLibrary}
use qh_voice_kit.Playback.Task.{TaskPoint, task_step, write_chunk_bytes}

abbrev pub task_runs : ℕ → List Move
task_runs zero = []
task_runs (suc n) = task_moves ∷ task_runs n

-- A stream buffer that gives as much as it has, up to what is asked for, and an output that takes
-- whole blocks.
pub record Drains {W : Type 0} (library : PlaybackLibrary W) (queued heard : W → Bytes)
    : Type 0 where
  pub available : (w : W) → library.bytes_available w ≡ length (queued w)
  pub receive_taken : (n : ℕ) (w : W) → (library.receive n w).0 ≡ take n (queued w)
  pub receive_queued : (n : ℕ) (w : W) → queued (library.receive n w).1 ≡ drop n (queued w)
  pub receive_heard : (n : ℕ) (w : W) → heard (library.receive n w).1 ≡ heard w
  pub write_whole : (pcm : Bytes) (w : W) → (library.write pcm w).0 ≡ length pcm
  pub write_queued : (pcm : Bytes) (w : W) → queued (library.write pcm w).1 ≡ queued w
  pub write_heard : (pcm : Bytes) (w : W) → heard (library.write pcm w).1 ≡ heard w ++ pcm

-- The members of a playback whose input is complete and which plays.
abbrev pub playing_out : {W : Type 0} → Playback W → W → Playback W
playing_out p world = record p {
  world = world;
  active = true;
  input_done = true;
  playing = true;
  busy = false;
}

not_empty : (s : Bytes) → 0 < length s → is_empty (take write_chunk_bytes s) ≡ false
not_empty [] h = absurd (omega arith)
not_empty (x ∷ s) h = refl

no_bytes : (s : Bytes) → length s ≡ 0 → s ≡ []
no_bytes [] h = refl
no_bytes (x ∷ s) h = absurd (omega arith)

module _ {W : Type 0} (library : PlaybackLibrary W) where
  runs_add :
      (m n : ℕ) (s : System W)
      → steps library (task_runs (m + n)) s
        ≡ steps library (task_runs n) (steps library (task_runs m) s)
  unfolding steps
  runs_add zero n s = let e : zero + n ≡ n = omega arith in rw e refl
  runs_add (suc m) n s =
      let e : suc m + n ≡ suc (m + n) = omega arith in
      rw e (runs_add m n (step library task_moves s))

module _ {W : Type 0} (library : PlaybackLibrary W) (queued heard : W → Bytes)
    (laws : Drains library queued heard) (p : Playback W) (c : ClientPoint) where
  abbrev pub at : TaskPoint → W → System W
  at t w = record { shared = playing_out p w; task = t; client = c }

  -- The world behind the play of one block.
  abbrev after_block : W → W
  after_block w =
      let (chunk, w1) = library.receive write_chunk_bytes w in (library.write chunk w1).1

  one_block :
      (w : W)
      → is_empty (library.receive write_chunk_bytes w).0 ≡ false
      → steps library (task_runs 10) (at TaskPoint.top w)
        ≡ at
            (if library.bytes_available (after_block w) == 0
              then TaskPoint.finish_playing
              else TaskPoint.top)
            (after_block w)
  unfolding steps step task_step
  one_block w h =
      let (chunk, w1) = library.receive write_chunk_bytes w in
      let whole : ((library.write chunk w1).0 == length chunk) ≡ true =
        ground (arith, laws.write_whole chunk w1) in
      rw (h, whole) refl

  after_block-queued : (w : W) → queued (after_block w) ≡ drop write_chunk_bytes (queued w)
  after_block-queued w =
      let (chunk, w1) = library.receive write_chunk_bytes w in
      laws.write_queued chunk w1 ∙ laws.receive_queued write_chunk_bytes w

  after_block-heard : (w : W) → heard (after_block w) ≡ heard w ++ take write_chunk_bytes (queued w)
  after_block-heard w =
      let (chunk, w1) = library.receive write_chunk_bytes w in
      laws.write_heard chunk w1
      ∙ ap (λ (t : Bytes). t ++ chunk) (laws.receive_heard write_chunk_bytes w)
      ∙ ap (λ (t : Bytes). heard w ++ t) (laws.receive_taken write_chunk_bytes w)

  some_block :
      (w : W) → 0 < length (queued w) → is_empty (library.receive write_chunk_bytes w).0 ≡ false
  some_block w h = rw (laws.receive_taken write_chunk_bytes w) (not_empty (queued w) h)

  empty_queue : (w : W) → (library.bytes_available w == 0) ≡ true → queued w ≡ []
  empty_queue w e = no_bytes (queued w) (ground (arith, laws.available w))

  -- The turn is over, and all that was queued has been heard.
  abbrev pub PlayedOut : W → System W → Type 0
  PlayedOut w s =
      (s.shared.drained ≡ true)
      × (s.shared.active ≡ false)
      × (s.shared.failed ≡ p.failed)
      × (queued s.shared.world ≡ [])
      × (heard s.shared.world ≡ heard w ++ queued w)

  ends :
      (w : W)
      → queued w ≡ []
      → PlayedOut w (steps library (task_runs 3) (at TaskPoint.finish_playing w))
  unfolding steps step task_step
  ends w e =
      (refl, refl, refl, e, sym (append-nil (heard w)) ∙ ap (λ (t : Bytes). heard w ++ t) (sym e))

  -- What is played after a block completes what was played before it.
  completes : (w : W) (s : System W) → PlayedOut (after_block w) s → PlayedOut w s
  completes w s (d, a, f, q, h) = (
    d,
    a,
    f,
    q,
    h
        ∙ ap (λ (t : Bytes). t ++ queued (after_block w)) (after_block-heard w)
        ∙ ap (λ (t : Bytes). (heard w ++ take write_chunk_bytes (queued w)) ++ t)
            (after_block-queued w)
        ∙ append_assoc (heard w) (take write_chunk_bytes (queued w))
            (drop write_chunk_bytes (queued w))
        ∙ ap (λ (t : Bytes). heard w ++ t) (take-append-drop write_chunk_bytes (queued w)),
  )

  goes_on :
      (k : ℕ) (w : W)
      → 0 < length (queued w)
      → steps library (task_runs (10 + k)) (at TaskPoint.top w)
        ≡ steps library (task_runs k) (
            at
              (if library.bytes_available (after_block w) == 0
                then TaskPoint.finish_playing
                else TaskPoint.top)
              (after_block w))
  goes_on k w h =
      runs_add library 10 k (at TaskPoint.top w)
      ∙ ap (λ (s : System W). steps library (task_runs k) s) (one_block w (some_block w h))

  plays_out :
      (n : ℕ) (w : W)
      → length (queued w) ≤ n
      → 0 < length (queued w)
      → (k : ℕ) × PlayedOut w (steps library (task_runs k) (at TaskPoint.top w))
  plays_out zero w small h = absurd (omega arith)
  plays_out (suc n) w small h =
      let w1 = after_block w in
      let left : length (queued w1) ≡ length (queued w) - write_chunk_bytes =
        ap (λ (t : Bytes). length t) (after_block-queued w)
        ∙ length-drop write_chunk_bytes (queued w) in
      elim (Bool-cases (library.bytes_available w1 == 0)) [
        | inl e ↦ (
          10 + 3,
          completes w (steps library (task_runs (10 + 3)) (at TaskPoint.top w))
              (rw (goes_on 3 w h, e) (ends w1 (empty_queue w1 e))),
        )
        | inr e ↦
            let (k, rest) =
              plays_out n w1 (omega (arith, left)) (ground (arith, e, laws.available w1)) in
            (
              10 + k,
              completes w (steps library (task_runs (10 + k)) (at TaskPoint.top w))
                  (rw (goes_on k w h, e) rest),
            )
      ]

-- Once the input of a turn is complete and it is playing, the task alone plays out all that is
-- queued, in order: after some number of its steps the turn is drained and no longer active, it has
-- not failed unless it had before, the queue is empty and what was queued has been heard. The task is
-- at the top of its loop, something is queued, the queue gives what it has up to the size of a block
-- and the output takes whole blocks.
pub task_runs-PlayedOut :
    {W : Type 0} (library : PlaybackLibrary W) (queued heard : W → Bytes)
    (laws : Drains library queued heard) (p : Playback W) (c : ClientPoint) (w : W)
    → 0 < length (queued w)
    → (k : ℕ) × PlayedOut library queued heard laws p c w
        (steps library (task_runs k) (at library queued heard laws p c TaskPoint.top w))
task_runs-PlayedOut library queued heard laws p c w h =
    plays_out library queued heard laws p c (length (queued w)) w (omega arith) h
