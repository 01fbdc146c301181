-- ===== src/Device/Events.antt =====
-- esp32_voice_kit.ino, `providerErrorCode` and `serviceRealtimeEvents`: the events of the service.
use qh_voice_kit.Base.{
  ℕ, zero, suc, Bool, true, false, not, ◌&&◌, ◌||◌, Option, none, some, ◌++◌, if◌then◌else◌, length,
}
use qh_voice_kit.Base.Bytes.{Bytes, codes, is_empty}
use qh_voice_kit.Base.Search.{find_text}
use qh_voice_kit.Config.{DeviceConfig}
use qh_voice_kit.Device.{Platform, Device, Accent, yellow, green, conversation_view}
use qh_voice_kit.Device.Runtime.{show, fail_runtime}
use qh_voice_kit.Device.Turns.{start_playing, write_output_audio, complete_turn}
use qh_voice_kit.Display.{UiState, utf8}
use qh_voice_kit.Realtime.{
  RealtimeEvent, RealtimeEventType, protocol_error, transcript_delta, transcript_completed,
  transcript_failed, output_text_delta, output_text_done, output_audio_started, output_audio_delta,
  output_audio_done, response_done, response_canceled, error, safe_realtime_error_code,
}
use qh_voice_kit.Transport.{pop_event}

abbrev pub contains : Bytes → Bytes → Bool
contains text part = elim (find_text part text) [ none ↦ false | some _ ↦ true ]

unfoldable pub provider_error_code : Bytes → Bytes
provider_error_code code =
    if contains code (codes "auth")
      || contains code (codes "401")
      || contains code (codes "credential")
    then codes "provider_auth_failed"
    else codes "provider_rejected"

abbrev pub shows_reply_text : Option DeviceConfig → Bool
shows_reply_text none = false
shows_reply_text (some c) = c.assistant.show_reply_text

-- `showConversation` of a text, when the configuration asks for it and there is one.
abbrev pub show_text : {E W : Type 0} → Bytes → Bytes → Accent → Device E W → Device E W
show_text title text accent d =
    if shows_reply_text d.active_config && not (is_empty text)
    then record d { screen = conversation_view title text accent }
    else d

module _ {E W : Type 0} (platform : Platform E W) where
  -- A round of the loop for an event of a type; `false` is a `return`.
  unfoldable pub handle_event : RealtimeEvent → RealtimeEventType → Device E W → Bool × Device E W
  unfolding utf8 start_playing write_output_audio complete_turn fail_runtime provider_error_code
  handle_event event transcript_delta d =
      (true, record d { current_transcript = d.current_transcript ++ event.text })
  handle_event event transcript_completed d =
      let heard = if not (is_empty event.text) then event.text else d.current_transcript in
      (true, show_text (utf8 (codes "我听到了")) heard yellow (record d { current_transcript = heard }))
  handle_event event output_text_delta d =
      (true, record d { current_reply = d.current_reply ++ event.text })
  handle_event event output_text_done d =
      let reply = if not (is_empty event.text) then event.text else d.current_reply in
      (true, show_text (utf8 (codes "回答")) reply green (record d { current_reply = reply }))
  handle_event event output_audio_started d = (true, show UiState.playing (start_playing d))
  handle_event event output_audio_delta d =
      let (written, d1) = write_output_audio platform event.audio_base64 d in
      if not written
      then (false, fail_runtime platform (codes "playback_failed") d1)
      else (true, d1)
  handle_event event output_audio_done d =
      let e = platform.playback_finish_input d.world in
      (true, record d { output_audio_done_received = true; world = e })
  handle_event event response_done d =
      let d1 = record d { response_done_received = true } in
      (true, if not d1.speaker_running then complete_turn platform d1 else d1)
  handle_event event response_canceled d =
      (false, fail_runtime platform (codes "provider_response_failed") d)
  handle_event event transcript_failed d =
      (false, fail_runtime platform (codes "provider_response_failed") d)
  handle_event event error d =
      let code = safe_realtime_error_code event.error_code in
      (false, fail_runtime platform (provider_error_code code) d)
  handle_event event protocol_error d =
      (false, fail_runtime platform (codes "provider_protocol_failed") d)
  handle_event event _ d = (true, d)

  -- `while (popEvent(event))`, with rounds that suffice.
  unfoldable pub events_loop : ℕ → Device E W → Device E W
  unfolding handle_event
  events_loop zero d = d
  events_loop (suc rounds) d =
      let (popped, t) = pop_event platform.socket d.realtime_transport in
      let d1 = record d { realtime_transport = t } in
      elim popped [
        | none ↦ d1
        | some event ↦
            let (more, d2) = handle_event event event.kind d1 in
            let rest = events_loop rounds d2 in if more then rest else d2
      ]

  -- A round takes an event from the queue, and none puts one there.
  unfoldable pub service_realtime_events : Device E W → Device E W
  unfolding events_loop
  service_realtime_events d = events_loop (suc (length d.realtime_transport.events)) d
