-- ===== src/Device/Safe.antt =====
-- esp32_voice_kit.ino: which of the microphone, the speaker and the connection are in use in each
-- state of the conversation. Children: the services of the loop, one file for each of theirs.
pub mod Recording
pub mod Turns
pub mod Events
pub mod Provider
pub mod Network
pub mod Loop
use qh_voice_kit.Base.{
  ◌≡◌, refl, Bool, true, false, ◌&&◌, ◌||◌, List, [], ◌∷◌, arith, if◌then◌else◌,
}
use qh_voice_kit.Base.Bytes.{Bytes}
use qh_voice_kit.Device.{Platform, Device}
use qh_voice_kit.Device.Runtime.{stop_audio_bus, fail_runtime, millis, apply_turn}
use qh_voice_kit.Realtime.{RealtimeEvent}
use qh_voice_kit.Transport.{RealtimeTransportStatus, close}
use qh_voice_kit.Turn.{
  is_state, VoiceTurnState, unconfigured, connecting_wifi, syncing_clock, error,
  recording_and_streaming,
}

-- The states without a connection to the service.
abbrev pub is_offline : VoiceTurnState → Bool
is_offline unconfigured = true
is_offline connecting_wifi = true
is_offline syncing_clock = true
is_offline error = true
is_offline _ = false

pub state-eq : (s t : VoiceTurnState) → is_state s t ≡ true → s ≡ t
state-eq s t e = ground arith

-- The microphone runs only while recording, and not beside the speaker. Offline, nothing runs, the
-- transport is idle, and no event waits.
pub record Exclusive (microphone speaker : Bool) (turn : VoiceTurnState)
    (status : RealtimeTransportStatus) (events : List RealtimeEvent) : Type 0 where
  pub half_duplex : microphone ≡ true → (speaker ≡ false) × (turn ≡ recording_and_streaming)
  pub resting :
      is_offline turn ≡ true
      → (microphone ≡ false)
        × (speaker ≡ false)
        × (status ≡ RealtimeTransportStatus.idle)
        × (events ≡ [])

pub record IsSafe {E W : Type 0} (d : Device E W) : Type 0 where
  pub safe :
      Exclusive d.microphone_running d.speaker_running d.voice_turn d.realtime_transport.status
        d.realtime_transport.events

module _ {microphone speaker : Bool} {status : RealtimeTransportStatus}
    {events : List RealtimeEvent} where
  -- While the state is online, only the microphone matters.
  pub on_air :
      {turn : VoiceTurnState}
      → is_offline turn ≡ false
      → microphone ≡ false
      → Exclusive microphone speaker turn status events
  on_air online off = record { half_duplex = λ e. cc (e, off); resting = λ e. cc (e, online) }

  pub with_turn :
      {turn other : VoiceTurnState}
      → other ≡ turn
      → Exclusive microphone speaker turn status events
      → Exclusive microphone speaker other status events
  with_turn e h = rw e h

  pub recording-Exclusive :
      {turn : VoiceTurnState}
      → speaker ≡ false
      → turn ≡ recording_and_streaming
      → Exclusive microphone speaker turn status events
  recording-Exclusive off r = ground arith

module _ {E W : Type 0} (platform : Platform E W) where
  pub stop_audio_bus-off :
      (d : Device E W)
      → let d1 = stop_audio_bus platform d in
        (d1.microphone_running ≡ false)
        × (d1.speaker_running ≡ false)
        × (d1.voice_turn ≡ d.voice_turn)
        × (d1.realtime_transport ≡ d.realtime_transport)
  unfolding stop_audio_bus
  stop_audio_bus-off d = ground arith

  pub fail_runtime-IsSafe : (code : Bytes) (d : Device E W) → IsSafe (fail_runtime platform code d)
  unfolding fail_runtime millis apply_turn close
  fail_runtime-IsSafe code d = record {
    safe = record {
      half_duplex = λ e. absurd (cc (e, (stop_audio_bus-off d).0));
      resting = λ _. ((stop_audio_bus-off d).0, (stop_audio_bus-off d).1, refl, refl);
    };
  }
