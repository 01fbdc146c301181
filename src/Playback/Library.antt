-- ===== src/Playback/Library.antt =====
-- buffered_pcm_playback.h: the members of `BufferedPcmPlayback`, and the stream buffer and the
-- output as the code calls them, over a state of theirs.
use qh_voice_kit.Base.{ℕ, Bool, true, false, not, if◌then◌else◌}
use qh_voice_kit.Base.Bytes.{Bytes}
use qh_voice_kit.Buffer.{PlaybackFailureStage, none}

-- `xStreamBufferCreateWithCaps`, `xTaskCreatePinnedToCore` and `vStreamBufferDeleteWithCaps`, then
-- `xStreamBufferSend`, `BytesAvailable`, `Receive` and `Reset`, and `I2SClass::write`.
pub record PlaybackLibrary (W : Type 0) : Type 0 where
  pub create : W → Bool × W
  pub create_task : W → Bool × W
  pub delete : W → W
  pub send : Bytes → W → ℕ × W
  pub bytes_available : W → ℕ
  pub receive : ℕ → W → Bytes × W
  pub reset : W → Bool × W
  pub write : Bytes → W → ℕ × W

-- `world` is the state of the libraries; `started` says that `buffer_` and `task_` are not null.
pub record Playback (W : Type 0) : Type 0 where
  pub world : W
  pub started : Bool
  pub active : Bool
  pub input_done : Bool
  pub playing : Bool
  pub drained : Bool
  pub failed : Bool
  pub failure_stage : PlaybackFailureStage
  pub busy : Bool
  pub maximum_queued_bytes : ℕ
  pub underrun_count : ℕ
  pub total_enqueued_bytes : ℕ

abbrev pub new_playback : {W : Type 0} → W → Playback W
new_playback world = record {
  world = world;
  started = false;
  active = false;
  input_done = false;
  playing = false;
  drained = false;
  failed = false;
  failure_stage = none;
  busy = false;
  maximum_queued_bytes = 0;
  underrun_count = 0;
  total_enqueued_bytes = 0;
}

-- `begin`, before which no task runs.
unfoldable pub begin : {W : Type 0} → PlaybackLibrary W → Playback W → Bool × Playback W
begin library p =
    let (created, w1) = library.create p.world in
    let (task_created, w2) = library.create_task w1 in
    if p.started
    then (true, p)
    else if not created
    then (false, record p { world = w1 })
    else if not task_created
    then (false, record p { world = library.delete w2 })
    else (true, record p { world = w2; started = true })
