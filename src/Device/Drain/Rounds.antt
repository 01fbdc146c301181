-- ===== src/Device/Drain/Rounds.antt =====
-- esp32_voice_kit.ino, `serviceRealtimeEvents`: the rounds of the loop, and the queue behind it.
use mathlib.Core.Path.{subst}
use qh_voice_kit.Base.{
  ℕ, zero, suc, ◌<◌, ◌≡◌, refl, sym, ap, List, inl, inr, Bool, false, Option, none, some, [], arith,
  if◌then◌else◌, if_both, option_both, length,
}
use qh_voice_kit.Device.{Platform, Device}
use qh_voice_kit.Device.Drain.{Drained, handle_event-Drained}
use qh_voice_kit.Device.Events.{handle_event, events_loop, service_realtime_events}
use qh_voice_kit.Realtime.{RealtimeEvent}
use qh_voice_kit.Transport.{SocketLibrary, RealtimeVoiceTransport, pop_event}

-- Both cases of an optional value, when the second is the same under its equation.
same_cases {ℓ κ} :
    {A : Type ℓ} {B : Type κ} (o : Option A) (x : B) (f g : A → B)
    → ((a : A) → o ≡ some a → f a ≡ g a)
    → elim o as (λ _. B) [ none ↦ x | some a ↦ f a ]
      ≡ elim o as (λ _. B) [ none ↦ x | some a ↦ g a ]
same_cases none x f g h = refl
same_cases (some a) x f g h = h a refl

module _ {W : Type 0} (lib : SocketLibrary W) (t : RealtimeVoiceTransport W) where
  pop_event-length :
      (n : ℕ) (event : RealtimeEvent)
      → length t.events < suc n
      → (pop_event lib t).0 ≡ some event
      → length (pop_event lib t).1.events < n
  unfolding pop_event
  pop_event-length n event l e = ground arith

  pop_event-none : (pop_event lib t).0 ≡ none → (pop_event lib t).1.events ≡ []
  unfolding pop_event
  pop_event-none e = ground arith

module _ {E W : Type 0} (platform : Platform E W) where
  pub loop_done :
      (n : ℕ) (d : Device E W)
      → d.realtime_transport.events ≡ []
      → events_loop platform (suc n) d ≡ d
  unfolding events_loop pop_event
  loop_done n d e =
      subst
        (λ (events : List RealtimeEvent).
          let with_events = record d {
            realtime_transport = record d.realtime_transport { events = events };
          } in
          events_loop platform (suc n) with_events ≡ with_events)
        (sym e) refl

  -- What waits behind a round that goes on.
  waiting_less :
      (d : Device E W) (r : Bool × Device E W) (n : ℕ)
      → Drained d r
      → length d.realtime_transport.events < n
      → length r.1.realtime_transport.events < n
  waiting_less d r n h l = elim h.outcome [
    | inl empty ↦ rw empty (omega arith)
    | inr (_, same) ↦ rw same l
  ]

  events_loop_enough :
      (n m : ℕ) (d : Device E W)
      → length d.realtime_transport.events < n
      → length d.realtime_transport.events < m
      → events_loop platform n d ≡ events_loop platform m d
  unfolding events_loop
  events_loop_enough zero m d l k = absurd (omega arith)
  events_loop_enough (suc n) zero d l k = absurd (omega arith)
  events_loop_enough (suc n) (suc m) d l k =
      let (popped, t) = pop_event platform.socket d.realtime_transport in
      let d1 = record d { realtime_transport = t } in
      same_cases popped d1 _ _ (λ event e.
        let (more, d2) = handle_event platform event event.kind d1 in
        let drained = handle_event-Drained platform event event.kind d1 in
        let left = pop_event-length platform.socket d.realtime_transport in
        ap (λ (rest : Device E W). if more then rest else d2)
          (events_loop_enough n m d2 (waiting_less d1 (more, d2) n drained (left n event l e))
            (waiting_less d1 (more, d2) m drained (left m event k e))))

  stopped-empty :
      (d : Device E W) (r : Bool × Device E W)
      → Drained d r
      → r.0 ≡ false
      → r.1.realtime_transport.events ≡ []
  stopped-empty d r h e = elim h.outcome [
    | inl empty ↦ empty
    | inr (goes_on, _) ↦ absurd (cc (e, goes_on))
  ]

  events_loop-events :
      (n : ℕ) (d : Device E W)
      → length d.realtime_transport.events < n
      → (events_loop platform n d).realtime_transport.events ≡ []
  unfolding events_loop
  events_loop-events zero d l = absurd (omega arith)
  events_loop-events (suc n) d l =
      let P = λ (e : Device E W). e.realtime_transport.events ≡ [] in
      let (popped, t) = pop_event platform.socket d.realtime_transport in
      let d1 = record d { realtime_transport = t } in
      option_both P popped (pop_event-none platform.socket d.realtime_transport) (λ event e.
        let (more, d2) = handle_event platform event event.kind d1 in
        let drained = handle_event-Drained platform event event.kind d1 in
        if_both P more
          (λ _. events_loop-events n d2 (
            waiting_less d1 (more, d2) n drained
              (pop_event-length platform.socket d.realtime_transport n event l e)))
          (stopped-empty d1 (more, d2) drained))

  -- The loop over the events ends: any number of rounds above the length of the queue leads to the same
  -- state as the number that the model gives it, and in that state no event waits.
  pub service_realtime_events-ends :
      (n : ℕ) (d : Device E W)
      → length d.realtime_transport.events < n
      → let e = service_realtime_events platform d in
        (events_loop platform n d ≡ e) × (e.realtime_transport.events ≡ [])
  unfolding service_realtime_events
  service_realtime_events-ends n d l =
      let rounds = suc (length d.realtime_transport.events) in
      (events_loop_enough n rounds d l (omega arith), events_loop-events rounds d (omega arith))
