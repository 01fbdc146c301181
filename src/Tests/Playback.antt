-- ===== src/Tests/Playback.antt =====
-- buffered_pcm_playback.h with a stream buffer that is a list, and an output that keeps what it is
-- given.
use qh_voice_kit.Base.{
  arith, take-length, sym, ap, take-append-drop, ◌≡◌, ◌++◌, refl, true, false, ℕ, zero, suc, List,
  [], ◌∷◌, length, take, drop,
}
use qh_voice_kit.Base.Bytes.{Bytes}
use qh_voice_kit.Buffer.{record_sent, complete, remaining_bytes}
use qh_voice_kit.Playback.{System, Move, task_moves, client_moves, calls, step, steps}
use qh_voice_kit.Playback.Client.{
  client_step, cancelled, outside, begin_turn, enqueue, finish_input, cancel,
}
use qh_voice_kit.Playback.Conserved.{accepted, flow, flow-steps}
use qh_voice_kit.Playback.Drain.{Drains, PlayedOut, task_runs, at, task_runs-PlayedOut}
use qh_voice_kit.Playback.Flow.{Streams}
use qh_voice_kit.Playback.Library.{PlaybackLibrary}
use qh_voice_kit.Playback.Silence.{Hears, started_system, heard-cancelled}
use qh_voice_kit.Playback.Task.{TaskPoint, task_step}

-- What is queued, and what was played.
abbrev World : Type 0
World = Bytes × Bytes

abbrev device : PlaybackLibrary World
device = record {
  create = λ w. (true, w);
  create_task = λ w. (true, w);
  delete = λ w. w;
  send = λ pcm w. (length pcm, (w.0 ++ pcm, w.1));
  bytes_available = λ w. length w.0;
  receive = λ n w. (take n w.0, (drop n w.0, w.1));
  reset = λ w. (true, ([], w.1));
  write = λ pcm w. (length pcm, (w.0, w.1 ++ pcm));
}

abbrev times : ℕ → Move → List Move
times zero m = []
times (suc n) m = m ∷ times n m

abbrev turn_begins : List Move
turn_begins = calls begin_turn ∷ times 18 client_moves

abbrev three_bytes : List Move
three_bytes =
    calls (enqueue (1 ∷ 2 ∷ 3 ∷ [])) ∷ times 10 client_moves
    ++ (calls finish_input ∷ times 2 client_moves)

-- To the last store of `finishDrain`, which comes after that of `drained_`.
abbrev almost_drained : System World
almost_drained =
    steps device (turn_begins ++ (three_bytes ++ times 14 task_moves)) (started_system ([], []))

drained_first : almost_drained.task ≡ TaskPoint.finish_active
unfolding steps step client_step task_step record_sent complete remaining_bytes
drained_first = refl

heard_all : almost_drained.shared.world ≡ ([], 1 ∷ 2 ∷ 3 ∷ [])
unfolding steps step client_step task_step record_sent complete remaining_bytes
heard_all = refl

-- `drained_` is set, and yet a new turn is refused, since `active_` is still set.
turn_refused :
    (almost_drained.shared.drained ≡ true)
    × ((steps device turn_begins almost_drained).client ≡ outside false)
unfolding steps step client_step task_step record_sent complete remaining_bytes
turn_refused = (refl, refl)

-- After `cancel` and `beginTurn`, the store that the task has left ends the new turn.
turn_ended :
    ((steps device (calls cancel ∷ times 7 client_moves ++ turn_begins) almost_drained).client
      ≡ outside true)
    × ((steps device
          (calls cancel ∷ times 7 client_moves ++ (turn_begins ++ (task_moves ∷ [])))
          almost_drained).shared.active
        ≡ false)
unfolding steps step client_step task_step record_sent complete remaining_bytes
turn_ended = (refl, refl)

abbrev played : World → Bytes
played w = w.1

abbrev waiting : World → Bytes
waiting w = w.0

hears : Hears device played
hears = record { send = λ _ _. refl; receive = λ _ _. refl; reset = λ _. refl }

-- The task has started to play when the turn is cancelled.
abbrev cancelled_moves : List Move
cancelled_moves =
    turn_begins ++ (three_bytes ++ (times 5 task_moves ++ (calls cancel ∷ times 7 client_moves)))

is_cancelled : (steps device cancelled_moves (started_system ([], []))).client ≡ cancelled true
unfolding steps step client_step task_step record_sent complete remaining_bytes
is_cancelled = refl

abbrev later_moves : List Move
later_moves = times 4 task_moves ++ (calls (enqueue (7 ∷ [])) ∷ times 3 client_moves)

heard-cancelled_example :
    played
      (steps device later_moves
        (steps device cancelled_moves (started_system ([], [])))).shared.world
    ≡ played (steps device cancelled_moves (started_system ([], []))).shared.world
heard-cancelled_example =
    heard-cancelled device played hears ([], []) cancelled_moves later_moves is_cancelled
      (refl, (refl, (refl, (refl, (refl, (refl, (refl, (refl, tt))))))))

streams : Streams device waiting played
streams = record {
  send_queued = λ pcm w. ap (λ (t : Bytes). w.0 ++ t) (sym (take-length pcm));
  send_heard = λ _ _. refl;
  receive_queued = λ n w. take-append-drop n w.0;
  receive_heard = λ _ _. refl;
  write_queued = λ _ _. refl;
  write_heard = λ _ _. refl;
}

abbrev begun : System World
begun = record (started_system ([], [])) {
  shared = record (started_system ([], [])).shared { active = true };
}

abbrev in_turn : List Move
in_turn =
    calls (enqueue (1 ∷ 2 ∷ 3 ∷ [])) ∷ client_moves ∷ task_moves ∷ client_moves ∷ task_moves ∷ []

flow-steps_example :
    flow device waiting played (steps device in_turn begun)
    ≡ flow device waiting played begun ++ accepted device in_turn begun
flow-steps_example =
    flow-steps device waiting played streams in_turn begun
      (refl, (refl, (refl, (refl, (refl, tt))))) (refl, λ _. refl)

drains : Drains device waiting played
drains = record {
  available = λ _. refl;
  receive_taken = λ _ _. refl;
  receive_queued = λ _ _. refl;
  receive_heard = λ _ _. refl;
  write_whole = λ _ _. refl;
  write_queued = λ _ _. refl;
  write_heard = λ _ _. refl;
}

abbrev three_waiting : World
three_waiting = (1 ∷ 2 ∷ 3 ∷ [], [])

task_runs-PlayedOut_example :
    (k : ℕ) × PlayedOut device waiting played drains begun.shared (outside true) three_waiting (
      steps device
        (task_runs k)
        (at device waiting played drains begun.shared (outside true) TaskPoint.top three_waiting))
task_runs-PlayedOut_example =
    task_runs-PlayedOut device waiting played drains begun.shared (outside true) three_waiting
      (omega arith)
