-- ===== src/Playback.antt =====
-- firmware/esp32_voice_kit/buffered_pcm_playback.h: the playback of a turn, which the main loop fills
-- and a task of its own empties. One step is one access to an atomic or one call of a library, so
-- that a list of moves is an order in which the two may run. Children: the library's calls, the
-- main loop's side, the task's side, and what they do together.
pub mod Library
pub mod Client
pub mod Task
pub mod Quiet
pub mod Silence
pub mod Flow
pub mod Conserved
pub mod Drain
use qh_voice_kit.Base.{List, [], ◌∷◌}
use qh_voice_kit.Playback.Client.{ClientPoint, Call, call, client_step}
use qh_voice_kit.Playback.Library.{Playback, PlaybackLibrary}
use qh_voice_kit.Playback.Task.{TaskPoint, task_step}

-- The object and where each of the two stands.
pub record System (W : Type 0) : Type 0 where
  pub shared : Playback W
  pub task : TaskPoint
  pub client : ClientPoint

-- A step of the task, a step of the main loop, or its call of a method, which is ignored while it is
-- inside another.
pub data Move : Type 0 where
  task_moves client_moves : Move
  calls : Call → Move

module _ {W : Type 0} (library : PlaybackLibrary W) where
  unfoldable pub step : Move → System W → System W
  unfolding task_step client_step
  step task_moves s =
      let (point, shared) = task_step library s.task s.shared in
      record s { shared = shared; task = point }
  step client_moves s =
      let (point, shared) = client_step library s.client s.shared in
      record s { shared = shared; client = point }
  step (calls c) s = record s { client = call c s.client }

  unfoldable pub steps : List Move → System W → System W
  unfolding step
  steps [] s = s
  steps (m ∷ moves) s = steps moves (step m s)
