-- ===== src/Device/Streamed.antt =====
-- esp32_voice_kit.ino, `serviceRecording`: what is captured, and when a frame is sent. The child:
-- what one call does.
pub mod Frames
use qh_voice_kit.Base.{
  ℕ, suc, zero, ◌+◌, ◌-◌, ◌*◌, ◌/◌, ◌%◌, ◌≤◌, ◌<◌, ◌≡◌, refl, ◌∙◌, true, false, not, ◌&&◌, ◌||◌,
  some, List, [], ◌∷◌, ◌++◌, ◌==◌, ltb, ◌⊎◌, arith, if◌then◌else◌, if_both, length,
}
use qh_voice_kit.Base.Bytes.{Bytes, codes}
use qh_voice_kit.Base.Words.{sub32, u32}
use qh_voice_kit.Device.{Platform, Device, maximum_recording_ms}
use qh_voice_kit.Device.Recording.{samples, finish_recording}
use qh_voice_kit.Device.Runtime.{apply_turn, fail_runtime, millis, stop_audio_bus}
use qh_voice_kit.Pacer.{due, AudioFramePacer}
use qh_voice_kit.Pcm.{convert_i2s32_to_pcm16le}
use qh_voice_kit.Pcm.Convert.{length-convert_i2s32_to_pcm16le}
use qh_voice_kit.Transport.{send_pcm16}

pub length-samples : (bytes : Bytes) (n : ℕ) → length bytes ≤ n * 4 → length (samples bytes) ≤ n
unfolding samples
length-samples [] n h = omega arith
length-samples (a ∷ []) n h = omega arith
length-samples (a ∷ b ∷ []) n h = omega arith
length-samples (a ∷ b ∷ c ∷ []) n h = omega arith
length-samples (a ∷ b ∷ c ∷ d ∷ bytes) zero h = absurd (omega arith)
length-samples (a ∷ b ∷ c ∷ d ∷ bytes) (suc n) h =
    omega (arith, length-samples bytes n (omega arith))

pub due-later :
    (now : ℕ) (p : AudioFramePacer)
    → (due now p).0 ≡ true
    → p.period_ms ≤ sub32 (due now p).1.last_sent_ms p.last_sent_ms
unfolding due
due-later now p e = ground arith

pub full :
    (input : List ℕ)
    → length input ≡ 320
    → ((convert_i2s32_to_pcm16le false input 640).0 == 640) ≡ true
full input h =
    let whole = (length-convert_i2s32_to_pcm16le input 640).2 (omega arith) in ground arith

pub is_full : (n : ℕ) → (n == 320) ≡ true → n ≡ 320
is_full n e = ground arith

module _ {E W : Type 0} (platform : Platform E W) where
  -- The bytes of a frame.
  abbrev pub pcm_of : List ℕ → Bytes
  pcm_of frame = (convert_i2s32_to_pcm16le false frame 640).1

  -- `readBytes` returns no more than it is asked for.
  abbrev pub Reads : Type 0
  Reads = (n : ℕ) (e : E) → length (platform.read_bytes n e).0 ≤ n

  -- The samples of the frame so far, with what the microphone gives now.
  abbrev pub gathered : Device E W → List ℕ
  gathered d =
      let remaining = 320 - length d.captured in
      let (bytes, _) = platform.read_bytes (remaining * 4) (platform.millis d.world).1 in
      if not (ltb (length d.captured) 320) then d.captured else d.captured ++ samples bytes

  -- One call, by what became of the connection and of what was captured. `waits`: the transport and
  -- the count are as they were. `too_long`: the recording has lasted ten seconds, and is finished.
  -- `unread`: the microphone gave nothing, or no whole samples, and the device fails with its
  -- transport as it was. `refused`: the transport refuses a whole frame, and the device fails.
  -- `one_frame`: the transport accepts one, a period or more after the last one.
  pub data Streamed (d e : Device E W) : Type 0 where
    waits :
        length e.captured ≤ 320
        → (e.captured ≡ d.captured) ⊎ (e.captured ≡ gathered d)
        → e.streamed_frames ≡ d.streamed_frames
        → e.realtime_transport ≡ d.realtime_transport
        → Streamed d e
    too_long :
        maximum_recording_ms ≤ sub32 (platform.millis d.world).0 d.recording_started_ms
        → e ≡ finish_recording platform (millis platform d).1
        → length e.captured ≤ 320
        → e.streamed_frames ≡ d.streamed_frames
        → Streamed d e
    unread :
        (b : Device E W)
        → e ≡ fail_runtime platform (codes "microphone_read_failed") b
        → b.realtime_transport ≡ d.realtime_transport
        → length e.captured ≤ 320
        → e.streamed_frames ≡ d.streamed_frames
        → Streamed d e
    refused :
        (frame : List ℕ) (b : Device E W)
        → frame ≡ gathered d
        → length frame ≡ 320
        → (send_pcm16 platform.socket (some (pcm_of frame)) d.realtime_transport).0 ≡ false
        → e ≡ fail_runtime platform (codes "provider_send_failed") b
        → b.realtime_transport
          ≡ (send_pcm16 platform.socket (some (pcm_of frame)) d.realtime_transport).1
        → length e.captured ≤ 320
        → e.streamed_frames ≡ d.streamed_frames
        → Streamed d e
    one_frame :
        (frame : List ℕ)
        → frame ≡ gathered d
        → length frame ≡ 320
        → (send_pcm16 platform.socket (some (pcm_of frame)) d.realtime_transport).0 ≡ true
        → e.realtime_transport
          ≡ (send_pcm16 platform.socket (some (pcm_of frame)) d.realtime_transport).1
        → d.frame_pacer.period_ms ≤ sub32 e.frame_pacer.last_sent_ms d.frame_pacer.last_sent_ms
        → e.streamed_frames ≡ u32 (d.streamed_frames + 1)
        → e.captured ≡ []
        → Streamed d e

  -- What an operation leaves that does not capture.
  pub record Kept (d e : Device E W) : Type 0 where
    pub captured : e.captured ≡ d.captured
    pub streamed : e.streamed_frames ≡ d.streamed_frames

  pub stop_audio_bus-Kept : (d : Device E W) → Kept d (stop_audio_bus platform d)
  unfolding stop_audio_bus
  stop_audio_bus-Kept d =
      if_both (Kept d) (not d.microphone_running && not d.speaker_running)
        (λ _. record { captured = refl; streamed = refl })
        (λ _. record { captured = refl; streamed = refl })

  pub fail_runtime-Kept : (code : Bytes) (d : Device E W) → Kept d (fail_runtime platform code d)
  unfolding fail_runtime apply_turn millis
  fail_runtime-Kept code d =
      let k = stop_audio_bus-Kept d in record { captured = k.captured; streamed = k.streamed }
