-- ===== src/Transport/Queue.antt =====
-- realtime_voice_transport.h: the length of the queue of events.
use qh_voice_kit.Base.{
  Option, ◌≤◌, ◌≡◌, refl, none, some, List, [], ◌∷◌, length, length-append, arith, leb, if_both,
  unless_both,
}
use qh_voice_kit.Base.Bytes.{Bytes, codes, is_empty}
use qh_voice_kit.Realtime.{
  RealtimeEvent, RealtimeEventType, session_created, error, protocol_error, plain_event,
}
use qh_voice_kit.Realtime.Messages.{
  build_realtime_mute_commit, build_realtime_unmute_commit, build_realtime_audio_append,
  build_realtime_input_commit,
}
use qh_voice_kit.Transport.{
  SocketLibrary, RealtimeVoiceTransport, handle_disconnected, disconnect_socket, called_back,
  send_text, queue_event, handle_connected, accept_event, handle_text, handle_socket_event,
  connected, socket_error, disconnected_event, text_event, other_event, begin_session, begin_input,
  send_pcm16, commit_input, mute_input, pop_event, close, maximum_queued_events, SocketEvent,
  bytes_or_empty, protocol_failed, provider_failed, ready, disconnected,
}
use qh_voice_kit.Transport.Steps.{
  Action, step, steps, begun, input_begun, input_muted, pcm_sent, input_committed, popped, closed,
  happened,
}

module _ {W : Type 0} (lib : SocketLibrary W) where
  abbrev pub IsBounded : RealtimeVoiceTransport W → Type 0
  IsBounded t = length t.events ≤ maximum_queued_events

  handle_disconnected-events :
      (reason : Bytes) (t : RealtimeVoiceTransport W)
      → (handle_disconnected lib reason t).events ≡ t.events
  unfolding handle_disconnected
  handle_disconnected-events reason t = ground arith

  called_back-events :
      (called : Option Bytes) (t : RealtimeVoiceTransport W)
      → (called_back lib called t).events ≡ t.events
  unfolding called_back
  called_back-events none t = refl
  called_back-events (some reason) t = handle_disconnected-events reason t

  disconnect_socket-events :
      (t : RealtimeVoiceTransport W) → (disconnect_socket lib t).events ≡ t.events
  unfolding disconnect_socket
  disconnect_socket-events t =
      let (called, w) = lib.disconnect t.socket in
      called_back-events called (record t { socket = w })

  -- A property of the queue that a disconnection leaves.
  same_events-IsBounded :
      (t u : RealtimeVoiceTransport W) → t.events ≡ u.events → IsBounded u → IsBounded t
  same_events-IsBounded t u e h = rw e h

  queue_event-IsBounded :
      (event : RealtimeEvent) (t : RealtimeVoiceTransport W) → IsBounded (queue_event lib event t)
  unfolding queue_event
  queue_event-IsBounded event t =
      let over = record t { status = protocol_failed; events = plain_event protocol_error ∷ [] } in
      if_both IsBounded (leb maximum_queued_events (length t.events))
        (λ _.
          same_events-IsBounded (disconnect_socket lib over) over (disconnect_socket-events over)
            (omega arith))
        (λ room. ground (arith, length-append t.events (event ∷ [])))

  send_text-events :
      (message : Bytes) (t : RealtimeVoiceTransport W)
      → (send_text lib message t).1.events ≡ t.events
  unfolding send_text
  send_text-events message t =
      let (_, called, w) = lib.send_txt message t.socket in
      called_back-events called (record t { socket = w })

  handle_connected-events :
      (t : RealtimeVoiceTransport W) → (handle_connected lib t).events ≡ t.events
  unfolding handle_connected
  handle_connected-events t = grind (arith, disconnect_socket-events, send_text-events)

  accept_event-IsBounded :
      (event : RealtimeEvent) (kind : RealtimeEventType) (t : RealtimeVoiceTransport W)
      → IsBounded t
      → IsBounded (accept_event lib event kind t)
  unfolding accept_event
  accept_event-IsBounded event session_created t h =
      let message = build_realtime_mute_commit (codes "initial-mute") in
      let (sent, t1) = send_text lib message t in
      let failed = record t1 { status = disconnected } in
      unless_both IsBounded sent
        (λ _.
          same_events-IsBounded (disconnect_socket lib failed) failed
            (disconnect_socket-events failed) (rw (send_text-events message t) h))
        (λ _. queue_event-IsBounded event (record t1 { status = ready }))
  accept_event-IsBounded event error t h =
      queue_event-IsBounded event
        (record t { provider_error_code = event.error_code; status = provider_failed })
  accept_event-IsBounded event protocol_error t h =
      queue_event-IsBounded event (record t { status = protocol_failed })
  accept_event-IsBounded event _ t h = queue_event-IsBounded event t

  handle_text-IsBounded :
      (payload : Bytes) (t : RealtimeVoiceTransport W)
      → IsBounded t
      → IsBounded (handle_text lib payload t)
  unfolding handle_text
  handle_text-IsBounded payload t h =
      if_both IsBounded (is_empty payload) (λ _. h) (λ _. accept_event-IsBounded _ _ _ h)

  handle_socket_event-IsBounded :
      (event : SocketEvent) (t : RealtimeVoiceTransport W)
      → IsBounded t
      → IsBounded (handle_socket_event lib event t)
  unfolding handle_socket_event
  handle_socket_event-IsBounded connected t h =
      same_events-IsBounded (handle_connected lib t) t (handle_connected-events t) h
  handle_socket_event-IsBounded socket_error t h = ground arith
  handle_socket_event-IsBounded (disconnected_event p) t h =
      same_events-IsBounded (handle_disconnected lib (bytes_or_empty p) t) t
        (handle_disconnected-events (bytes_or_empty p) t) h
  handle_socket_event-IsBounded (text_event none) t h = h
  handle_socket_event-IsBounded (text_event (some payload)) t h = handle_text-IsBounded payload t h
  handle_socket_event-IsBounded other_event t h = h

  step-IsBounded :
      (a : Action) (t : RealtimeVoiceTransport W) → IsBounded t → IsBounded (step lib a t)
  unfolding step begin_session begin_input send_pcm16 commit_input mute_input pop_event close
  step-IsBounded (begun provider session) t h = ground arith
  step-IsBounded (input_begun id) t h =
      ground (arith, send_text-events (build_realtime_unmute_commit id) t)
  step-IsBounded (input_muted id) t h =
      ground (arith, send_text-events (build_realtime_mute_commit id) t)
  step-IsBounded (pcm_sent none) t h = h
  step-IsBounded (pcm_sent (some pcm)) t h =
      ground (arith, send_text-events (build_realtime_audio_append pcm) t)
  step-IsBounded (input_committed id mute_id) t h =
      let message = build_realtime_input_commit id in
      let t1 = (send_text lib message t).1 in
      ground (
        arith,
        send_text-events message t,
        send_text-events (build_realtime_mute_commit mute_id) t1,
      )
  step-IsBounded popped t h = ground arith
  step-IsBounded closed t h = omega arith
  step-IsBounded (happened event) t h = handle_socket_event-IsBounded event t h

  -- Whatever the client calls and the socket reports, in any order, a queue that has at most 48 events
  -- never has more.
  pub steps-IsBounded :
      (actions : List Action) (t : RealtimeVoiceTransport W)
      → IsBounded t
      → IsBounded (steps lib actions t)
  unfolding steps
  steps-IsBounded [] t h = h
  steps-IsBounded (a ∷ earlier) t h =
      step-IsBounded a (steps lib earlier t) (steps-IsBounded earlier t h)
