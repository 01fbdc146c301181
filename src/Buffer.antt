-- ===== src/Buffer.antt =====
-- firmware/esp32_voice_kit/playback_buffer_policy.h: how much of a block has been queued, and when
-- the playback of what is queued starts. `std::size_t` is 32 bits wide.
pub mod Enqueue
pub mod Policy
use qh_voice_kit.Base.{
  ℕ, ◌-◌, Bool, true, false, not, ◌&&◌, ◌||◌, min, max, ltb, leb, ◌==◌, if◌then◌else◌,
}
use qh_voice_kit.Base.Bytes.{Bytes, codes}
use qh_voice_kit.Base.Words.{add_size, sub_size}

pub data PlaybackFailureStage : Type 0 where
  none pcm_decode speaker_start buffer_turn_start buffer_enqueue i2s_write : PlaybackFailureStage

unfoldable pub playback_failure_stage_name : PlaybackFailureStage → Bytes
playback_failure_stage_name none = codes "none"
playback_failure_stage_name pcm_decode = codes "pcm_decode"
playback_failure_stage_name speaker_start = codes "speaker_start"
playback_failure_stage_name buffer_turn_start = codes "buffer_turn_start"
playback_failure_stage_name buffer_enqueue = codes "buffer_enqueue"
playback_failure_stage_name i2s_write = codes "i2s_write"

pub record PlaybackEnqueueProgress : Type 0 where
  pub target_bytes : ℕ
  pub sent_bytes : ℕ

abbrev pub new_progress : ℕ → PlaybackEnqueueProgress
new_progress target_bytes = record { target_bytes = target_bytes; sent_bytes = 0 }

unfoldable pub record_sent : ℕ → PlaybackEnqueueProgress → PlaybackEnqueueProgress
record_sent bytes p = record p { sent_bytes = min p.target_bytes (add_size p.sent_bytes bytes) }

unfoldable pub complete : PlaybackEnqueueProgress → Bool
complete p = p.sent_bytes == p.target_bytes

unfoldable pub remaining_bytes : PlaybackEnqueueProgress → ℕ
remaining_bytes p = sub_size p.target_bytes p.sent_bytes

pub record PlaybackBufferPolicy : Type 0 where
  pub start_watermark_bytes : ℕ
  pub queued_bytes : ℕ
  pub maximum_queued_bytes : ℕ
  pub underrun_count : ℕ
  pub input_done : Bool
  pub playing : Bool

abbrev pub new_policy : ℕ → PlaybackBufferPolicy
new_policy start_watermark_bytes = record {
  start_watermark_bytes = start_watermark_bytes;
  queued_bytes = 0;
  maximum_queued_bytes = 0;
  underrun_count = 0;
  input_done = false;
  playing = false;
}

unfoldable pub begin_turn : PlaybackBufferPolicy → PlaybackBufferPolicy
begin_turn p = record p {
  queued_bytes = 0;
  maximum_queued_bytes = 0;
  underrun_count = 0;
  input_done = false;
  playing = false;
}

unfoldable pub on_enqueued : ℕ → PlaybackBufferPolicy → PlaybackBufferPolicy
on_enqueued bytes p =
    let queued = add_size p.queued_bytes bytes in
    record p { queued_bytes = queued; maximum_queued_bytes = max p.maximum_queued_bytes queued }

unfoldable pub should_start : PlaybackBufferPolicy → Bool
should_start p =
    not p.playing
    && ltb 0 p.queued_bytes
    && (leb p.start_watermark_bytes p.queued_bytes || p.input_done)

unfoldable pub on_playback_started : PlaybackBufferPolicy → PlaybackBufferPolicy
on_playback_started p = record p { playing = true }

unfoldable pub on_consumed : ℕ → PlaybackBufferPolicy → PlaybackBufferPolicy
on_consumed bytes p = record p {
  queued_bytes = if leb p.queued_bytes bytes then 0 else p.queued_bytes - bytes;
}

unfoldable pub on_input_done : PlaybackBufferPolicy → PlaybackBufferPolicy
on_input_done p = record p { input_done = true }

unfoldable pub on_underrun : PlaybackBufferPolicy → PlaybackBufferPolicy
on_underrun p = record p { playing = false; underrun_count = add_size p.underrun_count 1 }

unfoldable pub drained : PlaybackBufferPolicy → Bool
drained p = p.input_done && p.queued_bytes == 0
