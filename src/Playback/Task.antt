-- ===== src/Playback/Task.antt =====
-- buffered_pcm_playback.h: `taskLoop` and `finishDrain`, one access at a time.
use qh_voice_kit.Base.{ℕ, ◌*◌, Bool, true, false, not, ◌&&◌, leb, ltb, ◌==◌, if◌then◌else◌, length}
use qh_voice_kit.Base.Bytes.{Bytes, is_empty}
use qh_voice_kit.Base.Words.{add_size}
use qh_voice_kit.Buffer.{i2s_write}
use qh_voice_kit.Playback.Library.{Playback, PlaybackLibrary}

-- Where the task stands: what it does next, with the locals that it still needs. `drain_input` and
-- `drain_empty` are the two tests before `finishDrain` behind a chunk, `starved_input` and
-- `starved_empty` those behind an empty one.
pub data TaskPoint : Type 0 where
  top measure : TaskPoint
  test_playing test_input test_input_again : ℕ → TaskPoint
  start claim take : TaskPoint
  test_active emit : Bytes → TaskPoint
  drop release_starved starved_input starved_empty stop_playing count_underrun : TaskPoint
  release : Bool → TaskPoint
  fail_stage fail_flag fail_active fail_playing : TaskPoint
  drain_input drain_empty : TaskPoint
  finish_playing finish_drained finish_active : TaskPoint

abbrev pub start_watermark_bytes : ℕ
start_watermark_bytes = 12 * 1024

abbrev pub write_chunk_bytes : ℕ
write_chunk_bytes = 1920

module _ {W : Type 0} (library : PlaybackLibrary W) where
  unfoldable pub task_step : TaskPoint → Playback W → TaskPoint × Playback W
  task_step top p = (if p.active then measure else top, p)
  task_step measure p = (test_playing (library.bytes_available p.world), p)
  task_step (test_playing available) p = (
    if p.playing
        then claim
        else if leb start_watermark_bytes available
        then start
        else test_input available,
    p,
  )
  task_step (test_input available) p =
      (if p.input_done && ltb 0 available then start else test_input_again available, p)
  task_step (test_input_again available) p =
      (if p.input_done && available == 0 then finish_playing else top, p)
  task_step start p = (claim, record p { playing = true })
  task_step claim p = (take, record p { busy = true })
  task_step take p =
      let (chunk, world) = library.receive write_chunk_bytes p.world in
      (test_active chunk, record p { world = world })
  task_step (test_active chunk) p =
      (if not p.active then drop else if is_empty chunk then release_starved else emit chunk, p)
  task_step drop p = (top, record p { busy = false })
  task_step release_starved p = (starved_input, record p { busy = false })
  task_step starved_input p = (if p.input_done then starved_empty else stop_playing, p)
  task_step starved_empty p =
      (if library.bytes_available p.world == 0 then finish_playing else stop_playing, p)
  task_step stop_playing p = (count_underrun, record p { playing = false })
  task_step count_underrun p = (top, record p { underrun_count = add_size p.underrun_count 1 })
  task_step (emit chunk) p =
      let (written, world) = library.write chunk p.world in
      (release (written == length chunk), record p { world = world })
  task_step (release whole) p =
      (if whole then drain_input else fail_stage, record p { busy = false })
  task_step fail_stage p = (fail_flag, record p { failure_stage = i2s_write })
  task_step fail_flag p = (fail_active, record p { failed = true })
  task_step fail_active p = (fail_playing, record p { active = false })
  task_step fail_playing p = (top, record p { playing = false })
  task_step drain_input p = (if p.input_done then drain_empty else top, p)
  task_step drain_empty p =
      (if library.bytes_available p.world == 0 then finish_playing else top, p)
  task_step finish_playing p = (finish_drained, record p { playing = false })
  task_step finish_drained p = (finish_active, record p { drained = true })
  task_step finish_active p = (top, record p { active = false })
