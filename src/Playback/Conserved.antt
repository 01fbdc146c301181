-- ===== src/Playback/Conserved.antt =====
-- buffered_pcm_playback.h: what becomes of the bytes that `enqueue` has handed over.
use mathlib.Core.List.{append-nil, append_assoc}
use qh_voice_kit.Base.{◌≡◌, refl, sym, ◌∙◌, ap, true, List, [], ◌∷◌, ◌++◌, arith, All, take, drop}
use qh_voice_kit.Base.Bytes.{Bytes}
use qh_voice_kit.Buffer.{remaining_bytes}
use qh_voice_kit.Playback.{System, Move, task_moves, client_moves, calls, step, steps}
use qh_voice_kit.Playback.Client.{ClientPoint, client_step}
use qh_voice_kit.Playback.Flow.{Streams, hand, is_turn_move, InTurn, step-InTurn}
use qh_voice_kit.Playback.Library.{Playback, PlaybackLibrary}
use qh_voice_kit.Playback.Task.{TaskPoint, task_step, write_chunk_bytes}

joined : (a b c d : Bytes) → a ++ (b ++ (c ++ d)) ≡ (a ++ (b ++ c)) ++ d
joined a b c d =
    ap (λ (t : Bytes). a ++ t) (sym (append_assoc b c d)) ∙ sym (append_assoc a (b ++ c) d)

module _ {W : Type 0} (library : PlaybackLibrary W) where
  -- The bytes that the stream buffer takes of the main loop in its next step.
  abbrev pub accepted_at : ClientPoint → W → Bytes
  accepted_at (ClientPoint.loop_send pcm progress _) w =
      let block = take (remaining_bytes progress) (drop progress.sent_bytes pcm) in
      take (library.send block w).0 block
  accepted_at _ w = []

  abbrev pub accepted_in : Move → System W → Bytes
  accepted_in client_moves s = accepted_at s.client s.shared.world
  accepted_in _ s = []

  -- All the bytes that it takes in a run.
  unfoldable pub accepted : List Move → System W → Bytes
  accepted [] s = []
  accepted (m ∷ moves) s = accepted_in m s ++ accepted moves (step library m s)

  module _ (queued heard : W → Bytes) where
    -- What was heard, what the task holds and what is queued, in the order of the sound.
    abbrev pub flow : System W → Bytes
    flow s = heard s.shared.world ++ (hand s.task ++ queued s.shared.world)

  module _ (queued heard : W → Bytes) (laws : Streams library queued heard) where
    task-flow :
        (t : TaskPoint) (c : ClientPoint) (p : Playback W)
        → InTurn (record { shared = p; task = t; client = c })
        → flow queued heard (step library task_moves (record { shared = p; task = t; client = c }))
          ≡ flow queued heard (record { shared = p; task = t; client = c })
    unfolding step task_step
    task-flow TaskPoint.take c p h =
        rw
          (
            laws.receive_heard write_chunk_bytes p.world,
            laws.receive_queued write_chunk_bytes p.world,
          )
          refl
    task-flow (TaskPoint.test_active []) c p h = rw (h.1 refl) refl
    task-flow (TaskPoint.test_active (x ∷ chunk)) c p h = rw (h.1 refl) refl
    task-flow (TaskPoint.emit chunk) c p h =
        rw (laws.write_heard chunk p.world, laws.write_queued chunk p.world)
          (append_assoc (heard p.world) chunk (queued p.world))
    task-flow _ c p h = ground arith

    client-flow :
        (t : TaskPoint) (c : ClientPoint) (p : Playback W)
        → InTurn (record { shared = p; task = t; client = c })
        → flow queued heard
            (step library client_moves (record { shared = p; task = t; client = c }))
          ≡ flow queued heard (record { shared = p; task = t; client = c }) ++ accepted_at c p.world
    unfolding step client_step
    client-flow t ClientPoint.turn_reset p h = absurd (cc h.0)
    client-flow t (ClientPoint.cancel_reset _ _) p h = absurd (cc h.0)
    client-flow t (ClientPoint.loop_send pcm progress attempts) p h =
        let block = take (remaining_bytes progress) (drop progress.sent_bytes pcm) in
        rw (laws.send_heard block p.world, laws.send_queued block p.world)
          (joined (heard p.world) (hand t) (queued p.world)
            (take (library.send block p.world).0 block))
    client-flow t _ p h = sym (append-nil _)

    step-flow :
        (m : Move) (s : System W)
        → is_turn_move m ≡ true
        → InTurn s
        → flow queued heard (step library m s) ≡ flow queued heard s ++ accepted_in m s
    unfolding step
    step-flow task_moves s b h =
        task-flow s.task s.client s.shared h ∙ sym (append-nil (flow queued heard s))
    step-flow client_moves s b h = client-flow s.task s.client s.shared h
    step-flow (calls m) s b h = sym (append-nil (flow queued heard s))

    -- Within a turn no byte is lost, repeated or moved: in every order of the steps of the task and
    -- the main loop, without a call of `beginTurn` or `cancel`, what was heard, what the task holds
    -- and what is queued make up, in this order, what they made up at the start and behind it every
    -- byte that the stream buffer has taken since. At the start the main loop is outside of
    -- `beginTurn` and `cancel`, and the playback is active if the task is between its two tests of
    -- that; the queue is first in, first out, and the output takes whole blocks.
    pub flow-steps :
        (moves : List Move) (s : System W)
        → All (λ m. is_turn_move m ≡ true) moves
        → InTurn s
        → flow queued heard (steps library moves s) ≡ flow queued heard s ++ accepted moves s
    unfolding steps accepted
    flow-steps [] s b h = sym (append-nil (flow queued heard s))
    flow-steps (m ∷ moves) s (b, more) h =
        flow-steps moves (step library m s) more (step-InTurn library m s b h)
        ∙ ap (λ (f : Bytes). f ++ accepted moves (step library m s)) (step-flow m s b h)
        ∙ append_assoc (flow queued heard s) (accepted_in m s) (accepted moves (step library m s))
