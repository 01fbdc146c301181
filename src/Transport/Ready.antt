-- ===== src/Transport/Ready.antt =====
-- realtime_voice_transport.h: how the transport becomes ready.
use qh_voice_kit.Base.{
  ◌≡◌, ◌≢◌, refl, none, some, List, [], ◌∷◌, ◌⊎◌, inl, inr, arith, leb, length, if_both,
}
use qh_voice_kit.Base.Bytes.{Bytes, is_empty}
use qh_voice_kit.Realtime.{
  RealtimeEvent, RealtimeEventType, session_created, error, protocol_error, plain_event,
  parse_realtime_server_event,
}
use qh_voice_kit.Transport.{
  SocketLibrary, RealtimeVoiceTransport, handle_disconnected, disconnect_socket, send_text,
  queue_event, handle_connected, accept_event, handle_text, handle_socket_event, connected,
  socket_error, disconnected_event, text_event, other_event, begin_session, begin_input, send_pcm16,
  commit_input, mute_input, pop_event, close, maximum_queued_events, bytes_or_empty,
  protocol_failed, provider_failed, ready,
}
use qh_voice_kit.Transport.Steps.{
  Action, step, steps, begun, input_begun, input_muted, pcm_sent, input_committed, popped, closed,
  happened,
}

-- A received text in which the service announces the session.
abbrev pub Welcomes : Action → Type 0
Welcomes (happened (text_event (some payload))) =
    (parse_realtime_server_event payload).kind ≡ session_created
Welcomes _ = ⊥

-- One of the steps is such a text.
abbrev pub Welcomed : List Action → Type 0
Welcomed [] = ⊥
Welcomed (a ∷ earlier) = Welcomes a ⊎ Welcomed earlier

module _ {W : Type 0} (lib : SocketLibrary W) where
  -- The first state is ready only if the second one was.
  abbrev NotNewly : RealtimeVoiceTransport W → RealtimeVoiceTransport W → Type 0
  NotNewly after t = after.status ≡ ready → t.status ≡ ready

  handle_disconnected-NotNewly :
      (reason : Bytes) (t : RealtimeVoiceTransport W)
      → NotNewly (handle_disconnected lib reason t) t
  unfolding handle_disconnected
  handle_disconnected-NotNewly reason t = ground arith

  disconnect_socket-NotNewly : (t : RealtimeVoiceTransport W) → NotNewly (disconnect_socket lib t) t
  unfolding disconnect_socket
  disconnect_socket-NotNewly t h = grind (arith, handle_disconnected-NotNewly)

  queue_event-NotNewly :
      (event : RealtimeEvent) (t : RealtimeVoiceTransport W) → NotNewly (queue_event lib event t) t
  unfolding queue_event
  queue_event-NotNewly event t =
      let over = record t { status = protocol_failed; events = plain_event protocol_error ∷ [] } in
      if_both (λ (u : RealtimeVoiceTransport W). NotNewly u t)
        (leb maximum_queued_events (length t.events))
        (λ _ h. absurd (cc (disconnect_socket-NotNewly over h))) (λ _ h. h)

  handle_connected-NotNewly : (t : RealtimeVoiceTransport W) → NotNewly (handle_connected lib t) t
  unfolding handle_connected send_text
  handle_connected-NotNewly t h = grind (arith, disconnect_socket-NotNewly)

  accept_event-ready :
      (event : RealtimeEvent) (kind : RealtimeEventType) (t : RealtimeVoiceTransport W)
      → (accept_event lib event kind t).status ≡ ready
      → (t.status ≡ ready) ⊎ (kind ≡ session_created)
  unfolding accept_event send_text
  accept_event-ready event session_created t h = inr refl
  accept_event-ready event error t h = absurd (
      cc (
        queue_event-NotNewly event
          (record t { provider_error_code = event.error_code; status = provider_failed }) h))
  accept_event-ready event protocol_error t h =
      absurd (cc (queue_event-NotNewly event (record t { status = protocol_failed }) h))
  accept_event-ready event _ t h = inl (queue_event-NotNewly event t h)

  handle_text-ready :
      (payload : Bytes) (t : RealtimeVoiceTransport W)
      → (handle_text lib payload t).status ≡ ready
      → (t.status ≡ ready) ⊎ ((parse_realtime_server_event payload).kind ≡ session_created)
  unfolding handle_text
  handle_text-ready payload t =
      if_both
        (λ (u : RealtimeVoiceTransport W).
          u.status ≡ ready
          → (t.status ≡ ready) ⊎ ((parse_realtime_server_event payload).kind ≡ session_created))
        (is_empty payload) (λ _ h. inl h) (λ _ h. accept_event-ready _ _ _ h)

  step-ready :
      (a : Action) (t : RealtimeVoiceTransport W)
      → (step lib a t).status ≡ ready
      → (t.status ≡ ready) ⊎ Welcomes a
  unfolding step begin_session begin_input send_pcm16 commit_input mute_input pop_event close
      send_text handle_socket_event
  step-ready (begun provider session) t h = ground arith
  step-ready (input_begun id) t h = ground arith
  step-ready (input_muted id) t h = ground arith
  step-ready (pcm_sent none) t h = inl h
  step-ready (pcm_sent (some pcm)) t h = ground arith
  step-ready (input_committed id mute_id) t h = ground arith
  step-ready popped t h = ground arith
  step-ready closed t h = absurd (cc h)
  step-ready (happened connected) t h = inl (handle_connected-NotNewly t h)
  step-ready (happened socket_error) t h = ground arith
  step-ready (happened (disconnected_event p)) t h =
      inl (handle_disconnected-NotNewly (bytes_or_empty p) t h)
  step-ready (happened (text_event none)) t h = inl h
  step-ready (happened (text_event (some payload))) t h = handle_text-ready payload t h
  step-ready (happened other_event) t h = inl h

  -- A transport that was not ready and is after some calls and socket events, in any order, has
  -- received a text in which the service announces the session.
  pub steps-Welcomed :
      (actions : List Action) (t : RealtimeVoiceTransport W)
      → t.status ≢ ready
      → (steps lib actions t).status ≡ ready
      → Welcomed actions
  unfolding steps
  steps-Welcomed [] t ne h = absurd (ne h)
  steps-Welcomed (a ∷ earlier) t ne h = elim (step-ready a (steps lib earlier t) h) [
    | inl before ↦ inr (steps-Welcomed earlier t ne before)
    | inr w ↦ inl w
  ]
