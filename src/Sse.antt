-- ===== src/Sse.antt =====
-- firmware/esp32_voice_kit/doubao_tts_sse.h: the parser of the event stream of the speech service.
-- The bytes of a chunk are fed one after the other. Children: the numbers and the Base64 text of an
-- event, and what holds of the parser.
pub mod Text
pub mod Decoder
pub mod Chunks
pub mod Outcome
pub mod Bounded
use qh_voice_kit.Base.{
  ℕ, ◌+◌, ◌-◌, ◌*◌, ◌^◌, Bool, true, false, not, ◌&&◌, ◌||◌, Option, none, some, [], ◌∷◌, ◌++◌, min,
  ltb, ◌==◌, if◌then◌else◌, length, drop,
}
use qh_voice_kit.Base.Bytes.{Bytes, codes, is_empty}
use qh_voice_kit.Base.Search.{begins_with}
use qh_voice_kit.Base.Words.{sub_size, u32}
use qh_voice_kit.Json.{find_json_string, is_digit}
use qh_voice_kit.Sse.Text.{find_json_integer, decode_base64}

pub data DoubaoTtsStatus : Type 0 where
  receiving complete provider_error protocol_error too_large : DoubaoTtsStatus

pub record DoubaoTtsSseParser : Type 0 where
  pub max_audio_bytes : ℕ
  pub status : DoubaoTtsStatus
  pub provider_code : ℕ
  pub event_id : Option ℕ
  pub event_data : Bytes
  pub current_line : Bytes
  pub audio : Bytes

abbrev pub new_parser : ℕ → DoubaoTtsSseParser
new_parser max_audio_bytes = record {
  max_audio_bytes = max_audio_bytes;
  status = receiving;
  provider_code = 0;
  event_id = none;
  event_data = [];
  current_line = [];
  audio = [];
}

abbrev pub is_error_status : DoubaoTtsStatus → Bool
is_error_status receiving = false
is_error_status complete = false
is_error_status _ = true

abbrev pub is_error : DoubaoTtsSseParser → Bool
is_error p = is_error_status p.status

unfoldable pub fail : DoubaoTtsStatus → DoubaoTtsSseParser → Bool × DoubaoTtsSseParser
fail status p = (false, record p { status = status; audio = [] })

-- `max_audio_bytes_ - std::min(max_audio_bytes_, audio_.size())`.
abbrev pub room : DoubaoTtsSseParser → ℕ
room p = sub_size p.max_audio_bytes (min p.max_audio_bytes (length p.audio))

-- The event 352, behind the test of its code.
unfoldable pub add_audio : Option Bytes → DoubaoTtsSseParser → Bool × DoubaoTtsSseParser
unfolding fail
add_audio none p = fail protocol_error p
add_audio (some bytes) p =
    if ltb (room p) (length bytes)
    then fail too_large p
    else (true, record p { audio = p.audio ++ bytes })

unfoldable pub audio_event : Bytes → DoubaoTtsSseParser → Bool × DoubaoTtsSseParser
unfolding fail add_audio
audio_event json p = elim (find_json_string json (codes "data") 0) [
  | none ↦ fail protocol_error p
  | some encoded ↦ add_audio (decode_base64 encoded) p
]

-- The branches on the number of the event, which has the given code.
unfoldable pub handle_event : ℕ → Bytes → ℕ → DoubaoTtsSseParser → Bool × DoubaoTtsSseParser
unfolding fail audio_event
handle_event event json code p =
    if event == 352
    then (if not (code == 0) then fail provider_error p else audio_event json p)
    else if event == 152
    then (if not (code == 20000000)
        then fail provider_error p
        else (true, record p { status = complete }))
    else if event == 153
    then fail provider_error p
    else (true, p)

-- Behind the reset of the event.
unfoldable pub read_event : ℕ → Bytes → DoubaoTtsSseParser → Bool × DoubaoTtsSseParser
unfolding fail handle_event
read_event event json p = elim (find_json_integer json (codes "code")) [
  | none ↦ fail protocol_error p
  | some code ↦ handle_event event json code (record p { provider_code = code })
]

unfoldable pub dispatch_event : DoubaoTtsSseParser → Bool × DoubaoTtsSseParser
unfolding fail read_event
dispatch_event p = elim p.event_id [
  | none ↦ if is_empty p.event_data then (true, p) else fail protocol_error p
  | some event ↦
      if is_empty p.event_data
      then fail protocol_error p
      else read_event event p.event_data (record p { event_id = none; event_data = [] })
]

unfoldable pub skip_blanks : Bytes → Bytes
skip_blanks [] = []
skip_blanks (c ∷ text) = let rest = skip_blanks text in if c == b' ' then rest else c ∷ text

-- The digits of an event. `event` is an `int`; where it overflows, which C++ leaves undefined, the
-- model keeps the 32 bits that the processor computes.
unfoldable pub event_number : ℕ → Bytes → Option ℕ
event_number event [] = some event
event_number event (c ∷ text) =
    let rest = event_number (u32 (event * 10 + (c - b'0'))) text in
    if is_digit c then rest else none

unfoldable pub set_event : Option ℕ → DoubaoTtsSseParser → Bool × DoubaoTtsSseParser
unfolding fail
set_event none p = fail protocol_error p
set_event (some event) p = (true, record p { event_id = some event })

unfoldable pub event_line : Bytes → DoubaoTtsSseParser → Bool × DoubaoTtsSseParser
unfolding fail skip_blanks event_number set_event
event_line text p =
    let digits = skip_blanks text in
    if is_empty digits then fail protocol_error p else set_event (event_number 0 digits) p

-- At most one blank goes.
abbrev pub skip_blank : Bytes → Bytes
skip_blank [] = []
skip_blank (c ∷ text) = if c == b' ' then text else c ∷ text

unfoldable pub data_line : Bytes → DoubaoTtsSseParser → DoubaoTtsSseParser
data_line text p =
    let before = if is_empty p.event_data then [] else p.event_data ++ (b'\n' ∷ []) in
    record p { event_data = before ++ skip_blank text }

unfoldable pub process_line : Bytes → DoubaoTtsSseParser → Bool × DoubaoTtsSseParser
unfolding dispatch_event event_line data_line
process_line line p =
    if is_empty line
    then dispatch_event p
    else if begins_with (codes "event:") line
    then event_line (drop 6 line) p
    else if begins_with (codes "data:") line
    then (true, data_line (drop 5 line) p)
    else (true, p)

-- `pop_back` of a carriage return.
unfoldable pub strip_return : Bytes → Bytes
strip_return [] = []
strip_return (c ∷ []) = if c == b'\r' then [] else c ∷ []
strip_return (c ∷ d ∷ line) = c ∷ strip_return (d ∷ line)

-- One round of the loop of `feed`, and whether it goes on.
unfoldable pub feed_byte : ℕ → DoubaoTtsSseParser → Bool × DoubaoTtsSseParser
unfolding strip_return process_line
feed_byte value p =
    let line = strip_return p.current_line in
    let (kept, after) = process_line line (record p { current_line = line }) in
    if not (value == b'\n')
    then (true, record p { current_line = p.current_line ++ (value ∷ []) })
    else if not kept
    then (false, after)
    else (true, record after { current_line = [] })

unfoldable pub feed_bytes : Bytes → DoubaoTtsSseParser → Bool × DoubaoTtsSseParser
unfolding feed_byte
feed_bytes [] p = (not (is_error p), p)
feed_bytes (value ∷ chunk) p = elim (feed_byte value p).0 [
  | true ↦ feed_bytes chunk (feed_byte value p).1
  | false ↦ (false, (feed_byte value p).1)
]

unfoldable pub feed : Bytes → DoubaoTtsSseParser → Bool × DoubaoTtsSseParser
unfolding feed_bytes
feed chunk p = if is_error p then (false, p) else feed_bytes chunk p

-- The line that is left when the stream ends.
unfoldable pub finish_line : DoubaoTtsSseParser → Bool × DoubaoTtsSseParser
unfolding process_line
finish_line p =
    let (kept, after) = process_line p.current_line p in
    if is_empty p.current_line
    then (true, p)
    else if not kept
    then (false, after)
    else (true, record after { current_line = [] })

abbrev pub is_complete : DoubaoTtsStatus → Bool
is_complete complete = true
is_complete _ = false

-- Behind the event that is left; without one `dispatchEvent` changes nothing and returns true.
unfoldable pub finish_status : Bool × DoubaoTtsSseParser → Bool × DoubaoTtsSseParser
unfolding fail
finish_status (kept, p) =
    if not kept
    then (false, p)
    else if not (is_complete p.status)
    then fail protocol_error p
    else (true, p)

unfoldable pub finish : DoubaoTtsSseParser → Bool × DoubaoTtsSseParser
unfolding finish_line dispatch_event finish_status
finish p =
    let (kept, q) = finish_line p in
    if is_error p
    then (false, p)
    else if not kept
    then (false, q)
    else finish_status (dispatch_event q)
