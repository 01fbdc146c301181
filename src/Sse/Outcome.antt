-- ===== src/Sse/Outcome.antt =====
-- doubao_tts_sse.h: the operations of the parser, each with what it returns and leaves.
use qh_voice_kit.Base.{
  ℕ, ◌^◌, ◌≤◌, ◌<◌, ◌≡◌, refl, Bool, true, false, not, Option, none, some, [], ◌∷◌, arith, ltb,
  ◌==◌, if◌then◌else◌, length, drop, length-append, if_both, elim_both, unless_both, option_both,
}
use qh_voice_kit.Base.Bytes.{Bytes, codes, is_empty}
use qh_voice_kit.Base.Search.{begins_with}
use qh_voice_kit.Json.{find_json_string}
use qh_voice_kit.Sse.{
  DoubaoTtsStatus, provider_error, protocol_error, too_large, DoubaoTtsSseParser, is_error,
  is_error_status, is_complete, fail, room, add_audio, audio_event, handle_event, read_event,
  dispatch_event, skip_blanks, event_number, set_event, event_line, data_line, process_line,
  strip_return, feed_byte, feed_bytes, feed, finish_line, finish_status, finish,
}
use qh_voice_kit.Sse.Text.{find_json_integer, decode_base64}

module _ (max : ℕ) where
  -- The audio fits its bound, which is a `size_t`.
  abbrev pub Fits : DoubaoTtsSseParser → Type 0
  Fits p = (p.max_audio_bytes ≡ max) × (length p.audio ≤ max) × (max < 2 ^ 32)

  abbrev pub Live : DoubaoTtsSseParser → Type 0
  Live p = Fits p × (is_error p ≡ false)

  abbrev pub Failed : DoubaoTtsSseParser → Type 0
  Failed p = Fits p × (is_error p ≡ true) × (p.audio ≡ [])

  -- What an operation returns: true goes with a live parser, false with a failed one.
  abbrev pub Outcome : Bool × DoubaoTtsSseParser → Type 0
  Outcome (true, p) = Live p
  Outcome (false, p) = Failed p

  module _ (p : DoubaoTtsSseParser) (h : Live p) where
    fail-Outcome : (s : DoubaoTtsStatus) → is_error_status s ≡ true → Outcome (fail s p)
    unfolding fail
    fail-Outcome s e = ((h.0.0, omega arith, h.0.2), e, refl)

    add_audio-Outcome : (o : Option Bytes) → Outcome (add_audio o p)
    unfolding add_audio
    add_audio-Outcome none = fail-Outcome protocol_error refl
    add_audio-Outcome (some bytes) =
        if_both Outcome (ltb (room p) (length bytes)) (λ _. fail-Outcome too_large refl)
          (λ e. (
            (h.0.0, ground (arith, e, h.0.0, h.0.1, h.0.2, length-append p.audio bytes), h.0.2),
            h.1,
          ))

    audio_event-Outcome : (json : Bytes) → Outcome (audio_event json p)
    unfolding audio_event
    audio_event-Outcome json =
        option_both Outcome (find_json_string json (codes "data") 0)
          (λ _. fail-Outcome protocol_error refl)
          (λ encoded _. add_audio-Outcome (decode_base64 encoded))

    handle_event-Outcome :
        (event : ℕ) (json : Bytes) (code : ℕ) → Outcome (handle_event event json code p)
    unfolding handle_event
    handle_event-Outcome event json code =
        if_both Outcome (event == 352)
          (λ _.
            unless_both Outcome (code == 0) (λ _. fail-Outcome provider_error refl)
              (λ _. audio_event-Outcome json))
          (λ _.
            if_both Outcome (event == 152)
              (λ _.
                unless_both Outcome (code == 20000000) (λ _. fail-Outcome provider_error refl)
                  (λ _. (h.0, refl)))
              (λ _.
                if_both Outcome (event == 153) (λ _. fail-Outcome provider_error refl) (λ _. h)))

    data_line-Live : (text : Bytes) → Live (data_line text p)
    unfolding data_line
    data_line-Live text = h

    set_event-Outcome : (o : Option ℕ) → Outcome (set_event o p)
    unfolding set_event fail
    set_event-Outcome none = fail-Outcome protocol_error refl
    set_event-Outcome (some n) = h

    event_line-Outcome : (text : Bytes) → Outcome (event_line text p)
    unfolding event_line
    event_line-Outcome text =
        if_both Outcome (is_empty (skip_blanks text)) (λ _. fail-Outcome protocol_error refl)
          (λ _. set_event-Outcome (event_number 0 (skip_blanks text)))

  read_event-Outcome :
      (event : ℕ) (json : Bytes) (p : DoubaoTtsSseParser)
      → Live p
      → Outcome (read_event event json p)
  unfolding read_event
  read_event-Outcome event json p h =
      option_both Outcome (find_json_integer json (codes "code"))
        (λ _. fail-Outcome p h protocol_error refl)
        (λ code _. handle_event-Outcome (record p { provider_code = code }) h event json code)

  pub dispatch_event-Outcome : (p : DoubaoTtsSseParser) → Live p → Outcome (dispatch_event p)
  unfolding dispatch_event
  dispatch_event-Outcome p h =
      option_both Outcome p.event_id
        (λ _.
          if_both Outcome (is_empty p.event_data) (λ _. h)
            (λ _. fail-Outcome p h protocol_error refl))
        (λ event _.
          if_both Outcome (is_empty p.event_data) (λ _. fail-Outcome p h protocol_error refl)
            (λ _.
              read_event-Outcome event p.event_data (record p { event_id = none; event_data = [] })
                h))

  pub process_line-Outcome :
      (line : Bytes) (p : DoubaoTtsSseParser) → Live p → Outcome (process_line line p)
  unfolding process_line
  process_line-Outcome line p h =
      if_both Outcome (is_empty line) (λ _. dispatch_event-Outcome p h)
        (λ _.
          if_both Outcome (begins_with (codes "event:") line)
            (λ _. event_line-Outcome p h (drop 6 line))
            (λ _.
              if_both Outcome (begins_with (codes "data:") line)
                (λ _. data_line-Live p h (drop 5 line)) (λ _. h)))

  -- Dropping the line that was processed keeps the outcome.
  cleared-Outcome :
      (r : Bool × DoubaoTtsSseParser)
      → Outcome r
      → Outcome (if not r.0 then (false, r.1) else (true, record r.1 { current_line = [] }))
  cleared-Outcome (true, p) h = h
  cleared-Outcome (false, p) h = h

  pub feed_byte-Outcome :
      (value : ℕ) (p : DoubaoTtsSseParser) → Live p → Outcome (feed_byte value p)
  unfolding feed_byte
  feed_byte-Outcome value p h =
      unless_both Outcome (value == b'\n') (λ _. h)
        (λ _. cleared-Outcome _ (
          process_line-Outcome (strip_return p.current_line)
            (record p { current_line = strip_return p.current_line }) h))

  pub Outcome-Live : (r : Bool × DoubaoTtsSseParser) → Outcome r → r.0 ≡ true → Live r.1
  Outcome-Live (true, p) h e = h
  Outcome-Live (false, p) h e = absurd (cc e)

  pub Outcome-Failed : (r : Bool × DoubaoTtsSseParser) → Outcome r → r.0 ≡ false → Failed r.1
  Outcome-Failed (true, p) h e = absurd (cc e)
  Outcome-Failed (false, p) h e = h

  pub feed_bytes-Outcome :
      (chunk : Bytes) (p : DoubaoTtsSseParser) → Live p → Outcome (feed_bytes chunk p)
  unfolding feed_bytes
  feed_bytes-Outcome [] p h = rw h.1 h
  feed_bytes-Outcome (value ∷ chunk) p h =
      let next = feed_byte-Outcome value p h in
      elim_both Outcome (feed_byte value p).0
        (λ e.
          feed_bytes-Outcome chunk (feed_byte value p).1 (Outcome-Live (feed_byte value p) next e))
        (λ e. Outcome-Failed (feed_byte value p) next e)

  -- A parser that `feed`, or `finish`, may be called with: live or failed.
  pub data Ready (p : DoubaoTtsSseParser) : Type 0 where
    live : Live p → Ready p
    failed : Failed p → Ready p

  pub Ready-Live : {p : DoubaoTtsSseParser} → Ready p → is_error p ≡ false → Live p
  Ready-Live (live h) e = h
  Ready-Live (failed h) e = absurd (cc (e, h.1))

  pub Ready-Failed : {p : DoubaoTtsSseParser} → Ready p → is_error p ≡ true → Failed p
  Ready-Failed (live h) e = absurd (cc (e, h.1))
  Ready-Failed (failed h) e = h

  pub Outcome-Ready : (r : Bool × DoubaoTtsSseParser) → Outcome r → Ready r.1
  Outcome-Ready (true, p) h = live h
  Outcome-Ready (false, p) h = failed h

  pub feed-Outcome : (chunk : Bytes) (p : DoubaoTtsSseParser) → Ready p → Outcome (feed chunk p)
  unfolding feed
  feed-Outcome chunk p h =
      if_both Outcome (is_error p) (λ e. Ready-Failed h e)
        (λ e. feed_bytes-Outcome chunk p (Ready-Live h e))

  finish_line-Outcome : (p : DoubaoTtsSseParser) → Live p → Outcome (finish_line p)
  unfolding finish_line
  finish_line-Outcome p h =
      if_both Outcome (is_empty p.current_line) (λ _. h)
        (λ _. cleared-Outcome _ (process_line-Outcome p.current_line p h))

  finish_status-Outcome : (r : Bool × DoubaoTtsSseParser) → Outcome r → Outcome (finish_status r)
  unfolding finish_status
  finish_status-Outcome (false, p) h = h
  finish_status-Outcome (true, p) h =
      unless_both Outcome (is_complete p.status) (λ _. fail-Outcome p h protocol_error refl)
        (λ _. h)

  pub finish-Outcome : (p : DoubaoTtsSseParser) → Ready p → Outcome (finish p)
  unfolding finish
  finish-Outcome p h =
      if_both Outcome (is_error p) (λ e. Ready-Failed h e)
        (λ e.
          let first = finish_line-Outcome p (Ready-Live h e) in
          unless_both Outcome (finish_line p).0 (λ f. Outcome-Failed (finish_line p) first f)
            (λ t.
              finish_status-Outcome (dispatch_event (finish_line p).1)
                (dispatch_event-Outcome (finish_line p).1 (Outcome-Live (finish_line p) first t))))
