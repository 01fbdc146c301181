-- ===== src/Device/Runtime.antt =====
-- esp32_voice_kit.ino, `makeRequestId` to `startSpeaker`: identifiers, the audio bus, and failures.
use qh_voice_kit.Base.{
  ℕ, zero, suc, ◌+◌, ◌-◌, ◌/◌, ◌%◌, Bool, true, false, not, ◌&&◌, none, some, [], ◌∷◌, ltb,
  if◌then◌else◌,
}
use qh_voice_kit.Base.Bytes.{Bytes}
use qh_voice_kit.Device.{Platform, Device, state_view, error_view}
use qh_voice_kit.Display.{UiState}
use qh_voice_kit.Transport
use qh_voice_kit.Turn.{VoiceTurnState, VoiceTurnEvent, failure, is_state, apply}

abbrev pub lower_hex_digit : ℕ → ℕ
lower_hex_digit d = if ltb d 10 then b'0' + d else b'a' + d - 10

-- `%08lx` of a 32-bit number: its last digits, before a text.
unfoldable pub hex_onto : ℕ → ℕ → Bytes → Bytes
hex_onto zero n text = text
hex_onto (suc digits) n text = hex_onto digits (n / 16) (lower_hex_digit (n % 16) ∷ text)

abbrev pub show : {E W : Type 0} → UiState → Device E W → Device E W
show state d = record d { screen = state_view state }

-- `voice_turn.apply(event)`, and the test of `voice_turn.state()`.
unfoldable pub apply_turn : {E W : Type 0} → VoiceTurnEvent → Device E W → Bool × Device E W
apply_turn event d =
    let (next, changed) = apply d.voice_turn event in (changed, record d { voice_turn = next })

abbrev pub in_state : {E W : Type 0} → VoiceTurnState → Device E W → Bool
in_state state d = is_state d.voice_turn state

module _ {E W : Type 0} (platform : Platform E W) where
  -- The arguments of the call are taken from the left.
  unfoldable pub make_request_id : Device E W → Bytes × Device E W
  unfolding hex_onto
  make_request_id d =
      let (a, e1) = platform.esp_random d.world in
      let (b, e2) = platform.esp_random e1 in
      let (c, e3) = platform.esp_random e2 in
      let (f, e4) = platform.esp_random e3 in
      (hex_onto 8 a (hex_onto 8 b (hex_onto 8 c (hex_onto 8 f []))), record d { world = e4 })

  unfoldable pub format_utc_now : Device E W → Bytes × Device E W
  format_utc_now d =
      let (now, e) = platform.time d.world in
      (elim (platform.utc_text now) [ none ↦ [] | some text ↦ text ], record d { world = e })

  -- `millis()`.
  unfoldable pub millis : Device E W → ℕ × Device E W
  millis d = let (now, e) = platform.millis d.world in (now, record d { world = e })

  unfoldable pub stop_audio_bus : Device E W → Device E W
  stop_audio_bus d =
      let cancelled = if d.speaker_running then platform.playback_cancel d.world else d.world in
      if not d.microphone_running && not d.speaker_running then d else record d {
        world = platform.end_bus cancelled;
        microphone_running = false;
        speaker_running = false;
      }

  unfoldable pub connect_wifi : Device E W → Device E W
  unfolding millis
  connect_wifi d = elim d.active_config [
    | none ↦ d
    | some c ↦
        let begun = record d {
          world = platform.wifi_begin c.network.ssid c.network.password d.world;
        } in
        let (now, d1) = millis begun in
        show UiState.connecting (record d1 { wifi_attempt_started_ms = now })
  ]

  unfoldable pub fail_runtime : Bytes → Device E W → Device E W
  unfolding millis stop_audio_bus apply_turn
  fail_runtime code d =
      let d1 = stop_audio_bus d in
      let d2 = record d1 {
        realtime_transport = Transport.close platform.socket d1.realtime_transport;
      } in
      let (_, d3) = apply_turn failure d2 in
      let (now, d4) = millis d3 in
      record d4 { runtime_error_started_ms = now; screen = error_view code }

  unfoldable pub start_microphone : Device E W → Bool × Device E W
  unfolding stop_audio_bus
  start_microphone d =
      let d1 = stop_audio_bus d in
      let (begun, e) = platform.begin_microphone d1.world in
      (begun, record d1 { world = e; microphone_running = begun })

  unfoldable pub start_speaker : Device E W → Bool × Device E W
  unfolding stop_audio_bus
  start_speaker d =
      let d1 = stop_audio_bus d in
      let (begun, e) = platform.begin_speaker d1.world in
      if d.speaker_running
      then (true, d)
      else (begun, record d1 { world = e; speaker_running = begun })
