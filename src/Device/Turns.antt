-- ===== src/Device/Turns.antt =====
-- esp32_voice_kit.ino, `writeOutputAudio` to `completeTurn`: the answer that is played, and the
-- turn that it ends.
use qh_voice_kit.Base.{◌%◌, Bool, true, false, not, ◌||◌, none, some, ◌==◌, if◌then◌else◌, length}
use qh_voice_kit.Base.Bytes.{Bytes, codes, is_empty}
use qh_voice_kit.Base64.{decode_base64}
use qh_voice_kit.Buffer.{pcm_decode, speaker_start}
use qh_voice_kit.Config.{DeviceConfig}
use qh_voice_kit.Device.{Platform, Device}
use qh_voice_kit.Device.Runtime.{
  millis, show, apply_turn, in_state, stop_audio_bus, fail_runtime, start_speaker,
}
use qh_voice_kit.Display.{UiState}
use qh_voice_kit.Pcm.{scale_pcm16le}
use qh_voice_kit.Sync.{QhConversationTurn, post_qh_conversation_turn}
use qh_voice_kit.Turn.{output_audio_started, response_done, waiting_response}

-- `if (voice_turn.state() == kWaitingResponse) voice_turn.apply(kOutputAudioStarted);`
unfoldable pub start_playing : {E W : Type 0} → Device E W → Device E W
unfolding apply_turn
start_playing d = if in_state waiting_response d then (apply_turn output_audio_started d).1 else d

module _ {E W : Type 0} (platform : Platform E W) where
  -- The speaker, when it does not run yet, and the turn of the playback.
  unfoldable pub open_speaker : Device E W → Bool × Device E W
  unfolding start_speaker
  open_speaker d =
      let (begun, d1) = start_speaker platform d in
      let (turn_begun, e) = platform.playback_begin_turn d1.world in
      if d.speaker_running
      then (true, d)
      else if not begun
      then (false, record d1 { world = platform.playback_report_failure speaker_start d1.world })
      else (turn_begun, record d1 { world = e })

  -- Behind the decoding of the audio.
  unfoldable pub play : DeviceConfig → Bytes → Device E W → Bool × Device E W
  unfolding open_speaker start_playing
  play c pcm d =
      let (opened, d1) = open_speaker d in
      let d2 = show UiState.playing (start_playing d1) in
      let scaled = scale_pcm16le false pcm c.preferences.volume_percent in
      let (queued, e) = platform.playback_enqueue scaled d2.world in
      if not opened then (false, d1) else (queued, record d2 { world = e })

  unfoldable pub write_output_audio : Bytes → Device E W → Bool × Device E W
  unfolding play
  write_output_audio encoded d = elim d.active_config [
    | none ↦ (false, d)
    | some c ↦
        let (decoded, pcm) = decode_base64 encoded in
        if not decoded || is_empty pcm || not (length pcm % 2 == 0)
        then (false, record d { world = platform.playback_report_failure pcm_decode d.world })
        else play c pcm d
  ]

  -- What `syncCompletedTurn` posts.
  unfoldable pub completed_turn : DeviceConfig → Device E W → QhConversationTurn
  completed_turn c d = record {
    conversation_id = c.qh_sync.device_id;
    turn_id = d.current_turn_id;
    occurred_at = d.current_turn_started_at;
    transcript = d.current_transcript;
    reply = d.current_reply;
  }

  unfoldable pub sync_completed_turn : Device E W → Device E W
  unfolding completed_turn
  sync_completed_turn d = elim d.active_config [
    | none ↦ d
    | some c ↦
        let turn = completed_turn c d in
        let (_, e) = post_qh_conversation_turn platform.http c.qh_sync turn d.world in
        if not c.qh_sync.enabled then d else record d { world = e }
  ]

  unfoldable pub complete_turn : Device E W → Device E W
  unfolding stop_audio_bus apply_turn millis sync_completed_turn
  complete_turn d =
      let d1 = stop_audio_bus platform d in
      let (completed, d2) = apply_turn response_done d1 in
      let shown = record (show UiState.success d2) { success_display_active = true } in
      let (now, d3) = millis platform shown in
      if not completed
      then fail_runtime platform (codes "provider_event_order_invalid") d2
      else sync_completed_turn (record d3 { success_display_started_ms = now })
