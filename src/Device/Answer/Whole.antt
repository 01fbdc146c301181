-- ===== src/Device/Answer/Whole.antt =====
-- esp32_voice_kit.ino, `serviceRealtimeEvents`: an answer from its first event to its last.
use mathlib.Core.List.{append-nil, append_assoc}
use mathlib.Core.Path.{subst}
use qh_voice_kit.Base.{
  ℕ, zero, suc, not, if◌then◌else◌, ◌<◌, ◌≡◌, sym, ap, ◌∙◌, Bool, true, List, [], ◌∷◌, ◌++◌, length,
  arith,
}
use qh_voice_kit.Base.Bytes.{Bytes}
use qh_voice_kit.Config.{DeviceConfig}
use qh_voice_kit.Device.{Platform, Device}
use qh_voice_kit.Device.Drain.Rounds.{loop_done, service_realtime_events-ends}
use qh_voice_kit.Device.Events.{handle_event, events_loop, service_realtime_events}
use qh_voice_kit.Device.Turns.{complete_turn, completed_turn}
use qh_voice_kit.Realtime.{RealtimeEvent}
use qh_voice_kit.Transport.{pop_event}
use qh_voice_kit.Device.Answer.{
  Piece, heard, said, answer, length-answer, transcript_of, reply_of, with_events, shown_success,
  post_world, Posted, Waits, synced, complete_turn-eq, complete_turn-Posted,
}

module _ {E W : Type 0} (platform : Platform E W) (c : DeviceConfig) where
  -- The last event: what it leads to, and that the loop ends there.
  answered_last :
      (n : ℕ) (d : Device E W)
      → Waits platform c d
      → Posted platform c d d.current_transcript d.current_reply
          (events_loop platform (suc (suc n)) (with_events platform c (answer []) d))
  unfolding events_loop handle_event pop_event completed_turn
  answered_last n d h =
      let d1 = record (with_events platform c [] d) { response_done_received = true } in
      let h1 : Waits platform c d1 = record {
        waits = h.waits;
        quiet = h.quiet;
        configured = h.configured;
        enabled = h.enabled;
      } in
      let x = complete_turn platform d1 in
      let p = complete_turn-Posted platform c d1 h1 in
      let e =
        complete_turn-eq platform c d1 h1
        ∙ synced platform c (shown_success platform c d1) h.configured h.enabled in
      let ended = loop_done platform n x (ap (λ (y : Device E W). y.realtime_transport.events) e) in
      let opened =
        ap (λ (b : Bool). events_loop platform (suc n) (if not b then x else d1)) h.quiet.1 in
      subst (Posted platform c d d.current_transcript d.current_reply) (sym (opened ∙ ended))
        (record { over = p.over; texts = p.texts; sent = p.sent })

  answered :
      (pieces : List Piece) (n : ℕ) (d : Device E W)
      → length pieces < n
      → Waits platform c d
      → Posted platform c d
          (d.current_transcript ++ transcript_of pieces)
          (d.current_reply ++ reply_of pieces)
          (events_loop platform (suc n) (with_events platform c (answer pieces) d))
  unfolding events_loop handle_event pop_event completed_turn
  answered [] zero d l h = absurd (omega arith)
  answered [] (suc n) d l h =
      rw (append-nil d.current_transcript, append-nil d.current_reply) (answered_last n d h)
  answered (p ∷ pieces) zero d l h = absurd (omega arith)
  answered (heard text ∷ pieces) (suc n) d l h =
      let d1 = record d { current_transcript = d.current_transcript ++ text } in
      let h1 : Waits platform c d1 = record {
        waits = h.waits;
        quiet = h.quiet;
        configured = h.configured;
        enabled = h.enabled;
      } in
      let p = answered pieces n d1 (omega arith) h1 in
      record {
        over = p.over;
        texts =
            (p.texts.0 ∙ append_assoc d.current_transcript text (transcript_of pieces), p.texts.1);
        sent =
            p.sent
            ∙ ap (λ (t : Bytes). post_world platform c d t (d.current_reply ++ reply_of pieces))
                (append_assoc d.current_transcript text (transcript_of pieces));
      }
  answered (said text ∷ pieces) (suc n) d l h =
      let d1 = record d { current_reply = d.current_reply ++ text } in
      let h1 : Waits platform c d1 = record {
        waits = h.waits;
        quiet = h.quiet;
        configured = h.configured;
        enabled = h.enabled;
      } in
      let p = answered pieces n d1 (omega arith) h1 in
      record {
        over = p.over;
        texts = (p.texts.0, p.texts.1 ∙ append_assoc d.current_reply text (reply_of pieces));
        sent =
            p.sent
            ∙ ap (post_world platform c d (d.current_transcript ++ transcript_of pieces))
                (append_assoc d.current_reply text (reply_of pieces));
      }

  -- Any queue of pieces of the transcript and of the reply, in any order, with the end of the response
  -- behind it: a device that waits for the answer with its audio bus off, and whose configuration has
  -- synchronisation enabled, is idle afterwards, has joined the pieces of each in their order, and the
  -- platform is as the post of the turn with those texts to the server of the configuration leaves it.
  pub service_realtime_events-Posted :
      (pieces : List Piece) (d : Device E W)
      → d.realtime_transport.events ≡ answer pieces
      → Waits platform c d
      → Posted platform c d
          (d.current_transcript ++ transcript_of pieces)
          (d.current_reply ++ reply_of pieces)
          (service_realtime_events platform d)
  service_realtime_events-Posted pieces d e h =
      let n = suc (length pieces) in
      let transcript = d.current_transcript ++ transcript_of pieces in
      let reply = d.current_reply ++ reply_of pieces in
      let p : Posted platform c d transcript reply (events_loop platform (suc n) d) =
        subst
          (λ (events : List RealtimeEvent).
            Posted platform c d transcript reply
              (events_loop platform (suc n) (with_events platform c events d)))
          (sym e) (answered pieces n d (omega arith) h) in
      let short : length d.realtime_transport.events < suc n =
        rw e (omega (arith, length-answer pieces)) in
      subst (Posted platform c d transcript reply)
        (service_realtime_events-ends platform (suc n) d short).0 p
