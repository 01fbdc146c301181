-- ===== src/Tests/Device.antt =====
-- esp32_voice_kit.ino on a platform whose rounds take 21 ms each: the network is there, every call is
-- accepted, and the socket reports what its script says, one list of events for each `loop`.
-- The child: runs of the main loop.
mod Runs
use qh_voice_kit.Base.{
  ℕ, zero, suc, ◌+◌, ◌≤◌, ◌≡◌, ◌%◌, ◌^◌, refl, true, false, ◌&&◌, Option, none, some, List, [], ◌∷◌,
  ltb, arith,
}
use qh_voice_kit.Base.Bytes.{Bytes, codes}
use qh_voice_kit.Base.Integers.{pos}
use qh_voice_kit.Config.{DeviceConfig}
use qh_voice_kit.Device.{Platform, Device, new_device}
use qh_voice_kit.Device.Answer.{Posted, answer, heard, said}
use qh_voice_kit.Device.Answer.Whole.{service_realtime_events-Posted}
use qh_voice_kit.Device.Drain.Rounds.{service_realtime_events-ends}
use qh_voice_kit.Device.Events.{events_loop, service_realtime_events}
use qh_voice_kit.Device.Loop.{Firmware, StoreCalls, setup, loops}
use qh_voice_kit.Device.Recorded.{Ended, finish_recording-Ended}
use qh_voice_kit.Device.Recording.{finish_recording}
use qh_voice_kit.Device.Recovery.Rounds.{Ticks, Leaves, rounds, fail_runtime-recovers}
use qh_voice_kit.Device.Runtime.{fail_runtime}
use qh_voice_kit.Device.Safe.{IsSafe}
use qh_voice_kit.Device.Safe.Loop.{loops-setup-IsSafe}
use qh_voice_kit.Device.Streamed.{Streamed}
use qh_voice_kit.Provider.{WebSocketDisconnectHint}
use qh_voice_kit.Realtime.{unknown}
use qh_voice_kit.Receiver.{new_receiver}
use qh_voice_kit.Button.{begin}
use qh_voice_kit.Device.Runtime.{millis}
use qh_voice_kit.Base.{◌++◌}
use qh_voice_kit.Tests.Config.{home}
use qh_voice_kit.Transport.{
  SocketEvent, RealtimeVoiceTransport, RealtimeTransportStatus, text_event, connected,
}
use qh_voice_kit.Turn.{recording_and_streaming, waiting_response}

-- The time, and what was posted, the newest first.
pub record World : Type 0 where
  pub clock : ℕ
  pub posted : List Bytes

abbrev pub Script : Type 0
Script = List (List SocketEvent)

unfoldable pub zeros : ℕ → Bytes
zeros zero = []
zeros (suc n) = 0 ∷ zeros n

unfoldable pub next_events : Script → List SocketEvent × Script
next_events [] = ([], [])
next_events (events ∷ script) = (events, script)

abbrev pub desk : Platform World Script
desk = record {
  millis = λ e. (e.clock % 2 ^ 32, e);
  time = λ e. (1704067200, e);
  utc_text = λ _. some (codes "2024-01-01T00:00:00Z");
  esp_random = λ e. (7, e);
  button_is_high = λ e. (ltb 400 e.clock && ltb e.clock 1000, e);
  delay = λ n e. record e { clock = e.clock + n + 20 };
  wifi_begin = λ _ _ e. e;
  wifi_is_connected = λ e. (true, e);
  wifi_disconnect = λ e. e;
  config_time = λ e. e;
  begin_microphone = λ e. (true, e);
  begin_speaker = λ e. (true, e);
  end_bus = λ e. e;
  read_bytes = λ n e. (zeros n, e);
  playback_begin = λ e. (true, e);
  playback_begin_turn = λ e. (true, e);
  playback_enqueue = λ _ e. (true, e);
  playback_finish_input = λ e. e;
  playback_cancel = λ e. e;
  playback_report_failure = λ _ e. e;
  playback_failed = λ e. (false, e);
  playback_drained = λ e. (true, e);
  http = record {
    begin = λ _ e. (true, e);
    post = λ _ body e. (pos 200, record e { posted = body ∷ e.posted });
    get_string = λ e. ([], e);
    end = λ e. e;
  };
  socket = record {
    open_socket = λ _ _ w. w;
    send_txt = λ _ w. (true, none, w);
    disconnect = λ w. (none, w);
    disconnect_hint = λ _. WebSocketDisconnectHint.none;
    clear_disconnect_hint = λ w. w;
  };
  poll = next_events;
}

abbrev pub slots : StoreCalls (Option DeviceConfig)
slots = record {
  transaction = record {
    write_pending = λ c s. (true, some c);
    pending_matches = λ _ s. (true, s);
    activate_pending = λ s. (true, s);
    discard_pending = λ s. s;
  };
  begin_store = λ s. (true, s);
  active_config = λ s. s;
}

-- No event, for a number of times.
unfoldable pub quiet : ℕ → Script → Script
quiet zero script = script
quiet (suc n) script = [] ∷ quiet n script

abbrev pub text : Bytes → SocketEvent
text json = text_event (some json)

abbrev pub script : Script
script =
    (connected ∷ [])
    ∷ (text (codes "{\"type\":\"session.created\",\"id\":\"s\"}") ∷ [])
    ∷ quiet 37 (
        (text (
            codes
              "{\"type\":\"conversation.item.input_audio_transcription.delta\",\"delta\":\"hi\"}")
          ∷ text (codes "{\"type\":\"response.output_text.delta\",\"delta\":\"yes\"}")
          ∷ text (codes "{\"type\":\"response.done\"}")
          ∷ [])
        ∷ [])

abbrev pub transport : RealtimeVoiceTransport Script
transport = record {
  socket = script;
  session = record { session_id = []; instructions = []; voice = [] };
  status = RealtimeTransportStatus.idle;
  extra_headers = [];
  provider_error_code = [];
  disconnect_code = codes "none";
  events = [];
  last_event_type = unknown;
  closing = false;
}

abbrev pub kit : Firmware World Script (Option DeviceConfig)
kit = record {
  receiver = new_receiver false (some home);
  device = new_device (record { clock = 0; posted = [] }) transport;
}

abbrev pub digest : Bytes → Bytes
digest _ = []

abbrev pub started : List Bytes → Firmware World Script (Option DeviceConfig)
started bytes = loops desk slots digest bytes (setup desk slots digest kit)

loops-setup-IsSafe_example : IsSafe (started ([] ∷ [] ∷ codes "QH_VOICE_STATUS\n" ∷ [])).device
loops-setup-IsSafe_example =
    loops-setup-IsSafe desk slots digest ([] ∷ [] ∷ codes "QH_VOICE_STATUS\n" ∷ [])
      (record { clock = 0; posted = [] }) (some home) transport refl refl

abbrev pub waiting : Device World Script
waiting = record (new_device (record { clock = 5; posted = [] }) transport) {
  voice_turn = waiting_response;
  active_config = some home;
  realtime_transport = record transport {
    events = answer (heard (codes "h") ∷ said (codes "y") ∷ heard (codes "i") ∷ []);
  };
}

service_realtime_events-ends_example :
    let e = service_realtime_events desk waiting in
    (events_loop desk 9 waiting ≡ e) × (e.realtime_transport.events ≡ [])
service_realtime_events-ends_example = service_realtime_events-ends desk 9 waiting (omega arith)

service_realtime_events-Posted_example :
    Posted desk home waiting (codes "hi") (codes "y") (service_realtime_events desk waiting)
service_realtime_events-Posted_example =
    service_realtime_events-Posted desk home
      (heard (codes "h") ∷ said (codes "y") ∷ heard (codes "i") ∷ []) waiting refl
      (record { waits = refl; quiet = (refl, refl); configured = refl; enabled = refl })

desk-Ticks : Ticks desk (λ e. e.clock)
desk-Ticks = record {
  reads = λ e. refl;
  after_millis = λ e. (omega arith, omega arith);
  after_level = λ e. (omega arith, omega arith);
  after_delay = λ n e. (omega arith, omega arith);
}

-- The device beside a receiver, which reads nothing in any round.
abbrev waiting_kit : Firmware World Script (Option DeviceConfig)
waiting_kit = record { receiver = new_receiver true (some home); device = waiting }

fail_runtime-recovers_example :
    let failed = record waiting_kit {
      device = fail_runtime desk (codes "wifi_disconnected") waiting;
    } in
    (k : ℕ) × (k ≤ 5000)
    × Leaves desk slots digest home [] (rounds desk slots digest (λ _. []) k failed)
fail_runtime-recovers_example =
    fail_runtime-recovers desk slots digest (λ e. e.clock) desk-Ticks (codes "wifi_disconnected")
      home (λ _. []) waiting_kit (λ e. cc e) refl

-- A device that has recorded since 100 ms, with 100 samples of its third frame.
abbrev pub recording : Device World Script
recording = record (new_device (record { clock = 900; posted = [] }) transport) {
  voice_turn = recording_and_streaming;
  active_config = some home;
  realtime_transport = record transport { status = RealtimeTransportStatus.ready };
  microphone_running = true;
  recording_started_ms = 100;
  streamed_frames = 2;
  captured = zeros 100;
}

finish_recording-Ended_example : Ended desk recording (finish_recording desk recording)
finish_recording-Ended_example = finish_recording-Ended desk recording refl
