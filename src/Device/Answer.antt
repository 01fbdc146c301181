-- ===== src/Device/Answer.antt =====
-- esp32_voice_kit.ino, `serviceRealtimeEvents`, `completeTurn` and `syncCompletedTurn`: a turn whose
-- answer is a text. The child: the whole of it.
pub mod Whole
use qh_voice_kit.Base.{
  suc, not, if◌then◌else◌, ◌<◌, ◌≡◌, refl, ap, ◌∙◌, Bool, true, false, some, List, [], ◌∷◌, ◌++◌,
  length,
}
use qh_voice_kit.Base.Bytes.{Bytes, codes}
use qh_voice_kit.Config.{DeviceConfig}
use qh_voice_kit.Device.{Platform, Device, state_view}
use qh_voice_kit.Device.Runtime.{apply_turn, fail_runtime, millis, show, stop_audio_bus}
use qh_voice_kit.Display.{UiState}
use qh_voice_kit.Device.Turns.{complete_turn, completed_turn, sync_completed_turn}
use qh_voice_kit.Realtime.{
  RealtimeEvent, plain_event, transcript_delta, output_text_delta, response_done,
}
use qh_voice_kit.Sync.{post_qh_conversation_turn}
use qh_voice_kit.Turn.{apply, waiting_response, VoiceTurnEvent, VoiceTurnState}
use qh_voice_kit.Turn

-- A piece of what was heard, or of the reply.
pub data Piece : Type 0 where
  heard said : Bytes → Piece

abbrev pub event_of : Piece → RealtimeEvent
event_of (heard text) = record (plain_event transcript_delta) { text = text }
event_of (said text) = record (plain_event output_text_delta) { text = text }

-- The events of an answer.
abbrev pub answer : List Piece → List RealtimeEvent
answer [] = plain_event response_done ∷ []
answer (piece ∷ pieces) = event_of piece ∷ answer pieces

pub length-answer : (pieces : List Piece) → length (answer pieces) ≡ suc (length pieces)
length-answer [] = refl
length-answer (heard _ ∷ pieces) = ap suc (length-answer pieces)
length-answer (said _ ∷ pieces) = ap suc (length-answer pieces)

-- The whole of what was heard, and of the reply.
abbrev pub transcript_of : List Piece → Bytes
transcript_of [] = []
transcript_of (heard text ∷ pieces) = text ++ transcript_of pieces
transcript_of (said _ ∷ pieces) = transcript_of pieces

abbrev pub reply_of : List Piece → Bytes
reply_of [] = []
reply_of (heard _ ∷ pieces) = reply_of pieces
reply_of (said text ∷ pieces) = text ++ reply_of pieces

apply-waiting : apply waiting_response VoiceTurnEvent.response_done ≡ (Turn.idle, true)
unfolding apply
apply-waiting = refl

module _ {E W : Type 0} (platform : Platform E W) (c : DeviceConfig) where
  abbrev pub with_events : List RealtimeEvent → Device E W → Device E W
  with_events events d = record d {
    realtime_transport = record d.realtime_transport { events = events };
  }

  -- The platform behind the post of a turn with these texts.
  abbrev pub post_world : Device E W → Bytes → Bytes → E
  post_world d transcript reply =
      let turn = record (completed_turn platform c d) { transcript = transcript; reply = reply } in
      (post_qh_conversation_turn platform.http c.qh_sync turn (platform.millis d.world).1).1

  -- A device whose turn is over, and which has posted it with these texts.
  pub record Posted (d : Device E W) (transcript reply : Bytes) (e : Device E W) : Type 0 where
    pub over : e.voice_turn ≡ Turn.idle
    pub texts : (e.current_transcript ≡ transcript) × (e.current_reply ≡ reply)
    pub sent : e.world ≡ post_world d transcript reply

  -- A device that waits for an answer, and whose audio bus is off.
  pub record Waits (d : Device E W) : Type 0 where
    pub waits : d.voice_turn ≡ waiting_response
    pub quiet : (d.microphone_running ≡ false) × (d.speaker_running ≡ false)
    pub configured : d.active_config ≡ some c
    pub enabled : c.qh_sync.enabled ≡ true

  silent_bus : (d : Device E W) → Waits d → stop_audio_bus platform d ≡ d
  unfolding stop_audio_bus
  silent_bus d h = rw (h.quiet.0, h.quiet.1) refl

  pub finished :
      (d : Device E W)
      → d.voice_turn ≡ waiting_response
      → (apply_turn VoiceTurnEvent.response_done d) ≡ (true, record d { voice_turn = Turn.idle })
  unfolding apply_turn
  finished d h =
      ap (λ (r : VoiceTurnState × Bool). (r.1, record d { voice_turn = r.0 }))
        (ap (λ (s : VoiceTurnState). apply s VoiceTurnEvent.response_done) h ∙ apply-waiting)

  pub synced :
      (d : Device E W)
      → d.active_config ≡ some c
      → c.qh_sync.enabled ≡ true
      → sync_completed_turn platform d ≡ record d {
        world =
            (post_qh_conversation_turn platform.http c.qh_sync
              (completed_turn platform c d)
              d.world).1;
      }
  unfolding sync_completed_turn completed_turn
  synced d h k = rw h (rw k refl)

  -- `completeTurn` behind its event.
  abbrev after_event : Bool × Device E W → Device E W
  after_event (completed, d) =
      let shown = record (show UiState.success d) { success_display_active = true } in
      let (now, d1) = millis platform shown in
      if not completed
      then fail_runtime platform (codes "provider_event_order_invalid") d
      else sync_completed_turn platform (record d1 { success_display_started_ms = now })

  -- The device before the turn is posted.
  abbrev pub shown_success : Device E W → Device E W
  shown_success d =
      let (now, d1) = millis platform (record d {
        voice_turn = Turn.idle;
        screen = state_view UiState.success;
        success_display_active = true;
      }) in
      record d1 { success_display_started_ms = now }

  pub complete_turn-eq :
      (d : Device E W)
      → Waits d
      → complete_turn platform d ≡ sync_completed_turn platform (shown_success d)
  unfolding complete_turn
  complete_turn-eq d h =
      ap (λ (x : Device E W). after_event (apply_turn VoiceTurnEvent.response_done x))
        (silent_bus d h)
      ∙ ap after_event (finished d h.waits)

  pub complete_turn-Posted :
      (d : Device E W)
      → Waits d
      → Posted d d.current_transcript d.current_reply (complete_turn platform d)
  unfolding millis completed_turn
  complete_turn-Posted d h =
      let e = complete_turn-eq d h ∙ synced (shown_success d) h.configured h.enabled in
      record {
        over = ap (λ (x : Device E W). x.voice_turn) e;
        texts = (
          ap (λ (x : Device E W). x.current_transcript) e,
          ap (λ (x : Device E W). x.current_reply) e,
        );
        sent = ap (λ (x : Device E W). x.world) e;
      }
