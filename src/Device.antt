-- ===== src/Device.antt =====
-- firmware/esp32_voice_kit/esp32_voice_kit.ino: the globals of the main loop, and the libraries of
-- the platform as it calls them. Every call passes on a state `E` of the platform, also one that
-- reads a level or a clock; the socket has its own state `W`. The lines printed for diagnosis are
-- left out. Children: what the functions of the file do, in its order, and what holds of them.
pub mod Runtime
pub mod Recording
pub mod Turns
pub mod Events
pub mod Provider
pub mod Network
pub mod Loop
pub mod Safe
pub mod Drain
pub mod Answer
pub mod Recovery
pub mod Recorded
pub mod Streamed
use qh_voice_kit.Base.{ℕ, Bool, true, false, Option, none, List, []}
use qh_voice_kit.Base.Bytes.{Bytes}
use qh_voice_kit.Buffer.{PlaybackFailureStage}
use qh_voice_kit.Button.{ButtonDebouncer, new_debouncer}
use qh_voice_kit.Config.{DeviceConfig}
use qh_voice_kit.Display.{UiState}
use qh_voice_kit.Pacer.{AudioFramePacer}
use qh_voice_kit.Sync.Client.{HttpClient}
use qh_voice_kit.Transport.{SocketLibrary, RealtimeVoiceTransport, SocketEvent}
use qh_voice_kit.Turn.{VoiceTurnState, unconfigured}

-- `time` and `utc_text` are `time(nullptr)`, and `gmtime_r` with `strftime`, which may both fail.
-- `begin_microphone` and `begin_speaker` are `setPins` and `begin` of the audio bus, whose
-- `read_bytes` returns the bytes that were read.
-- `playback_...` are the methods of `BufferedPcmPlayback`, beside which the task of the playback
-- runs. `poll` is `loop` of the socket, with the events that it reports.
pub record Platform (E : Type 0) (W : Type 0) : Type 0 where
  pub millis : E → ℕ × E
  pub time : E → ℕ × E
  pub utc_text : ℕ → Option Bytes
  pub esp_random : E → ℕ × E
  pub button_is_high : E → Bool × E
  pub delay : ℕ → E → E
  pub wifi_begin : Bytes → Bytes → E → E
  pub wifi_is_connected : E → Bool × E
  pub wifi_disconnect : E → E
  pub config_time : E → E
  pub begin_microphone : E → Bool × E
  pub begin_speaker : E → Bool × E
  pub end_bus : E → E
  pub read_bytes : ℕ → E → Bytes × E
  pub playback_begin : E → Bool × E
  pub playback_begin_turn : E → Bool × E
  pub playback_enqueue : Bytes → E → Bool × E
  pub playback_finish_input : E → E
  pub playback_cancel : E → E
  pub playback_report_failure : PlaybackFailureStage → E → E
  pub playback_failed : E → Bool × E
  pub playback_drained : E → Bool × E
  pub http : HttpClient E
  pub socket : SocketLibrary W
  pub poll : W → List SocketEvent × W

-- The last call of `device_display`, with its arguments; the colour is that of the title.
pub data Accent : Type 0 where
  yellow green : Accent

pub data Screen : Type 0 where
  state_view : UiState → Screen
  error_view : Bytes → Screen
  conversation_view : Bytes → Bytes → Accent → Screen

-- `captured` are the first `capture_samples` samples of `capture_buffer`.
pub record Device (E : Type 0) (W : Type 0) : Type 0 where
  pub world : E
  pub voice_turn : VoiceTurnState
  pub button : ButtonDebouncer
  pub realtime_transport : RealtimeVoiceTransport W
  pub frame_pacer : AudioFramePacer
  pub screen : Screen
  pub active_config : Option DeviceConfig
  pub wifi_attempt_started_ms : ℕ
  pub runtime_error_started_ms : ℕ
  pub clock_sync_started_ms : ℕ
  pub provider_connect_started_ms : ℕ
  pub recording_started_ms : ℕ
  pub response_started_ms : ℕ
  pub success_display_started_ms : ℕ
  pub microphone_running : Bool
  pub speaker_running : Bool
  pub response_done_received : Bool
  pub output_audio_done_received : Bool
  pub success_display_active : Bool
  pub captured : List ℕ
  pub streamed_frames : ℕ
  pub current_turn_id : Bytes
  pub current_turn_started_at : Bytes
  pub current_transcript : Bytes
  pub current_reply : Bytes

abbrev pub wifi_connect_timeout_ms : ℕ
wifi_connect_timeout_ms = 15000

abbrev pub runtime_retry_delay_ms : ℕ
runtime_retry_delay_ms = 5000

abbrev pub clock_sync_timeout_ms : ℕ
clock_sync_timeout_ms = 20000

abbrev pub provider_connect_timeout_ms : ℕ
provider_connect_timeout_ms = 20000

abbrev pub provider_response_timeout_ms : ℕ
provider_response_timeout_ms = 45000

abbrev pub minimum_recording_ms : ℕ
minimum_recording_ms = 300

abbrev pub maximum_recording_ms : ℕ
maximum_recording_ms = 10000

abbrev pub success_display_ms : ℕ
success_display_ms = 1200

abbrev pub capture_samples_per_frame : ℕ
capture_samples_per_frame = 320

-- The globals before `setup`, with a transport and a debouncer as their constructors leave them.
abbrev pub new_device : {E W : Type 0} → E → RealtimeVoiceTransport W → Device E W
new_device world transport = record {
  world = world;
  voice_turn = unconfigured;
  button = new_debouncer true 40;
  realtime_transport = transport;
  frame_pacer = record { period_ms = 20; last_sent_ms = 0 };
  screen = state_view UiState.booting;
  active_config = none;
  wifi_attempt_started_ms = 0;
  runtime_error_started_ms = 0;
  clock_sync_started_ms = 0;
  provider_connect_started_ms = 0;
  recording_started_ms = 0;
  response_started_ms = 0;
  success_display_started_ms = 0;
  microphone_running = false;
  speaker_running = false;
  response_done_received = false;
  output_audio_done_received = false;
  success_display_active = false;
  captured = [];
  streamed_frames = 0;
  current_turn_id = [];
  current_turn_started_at = [];
  current_transcript = [];
  current_reply = [];
}
