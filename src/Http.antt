-- ===== src/Http.antt =====
-- firmware/esp32_voice_kit/provider_http_transport.h: the requests to the reply service and to the
-- speech service over HTTP, and its own way of posting a conversation turn.
pub mod Speech
use qh_voice_kit.Base.{
  ℕ, Bool, true, false, not, ◌&&◌, ◌||◌, Option, some, [], ◌∷◌, if◌then◌else◌, length,
}
use qh_voice_kit.Base.Bytes.{Bytes}
use qh_voice_kit.Base.Integers.{ℤ, pos, is, at_least, below}
use qh_voice_kit.Config.{QhSyncConfig}
use qh_voice_kit.Provider.{build_openai_reply_transport_request, build_doubao_tts_transport_request}
use qh_voice_kit.Reply
use qh_voice_kit.Reply.{
  OpenAiReplyRequest, OpenAiReply, ReplyError, build_openai_reply_body, parse_openai_reply,
  map_reply_http_status,
}
use qh_voice_kit.Sse
use qh_voice_kit.Sse.{DoubaoTtsStatus, DoubaoTtsSseParser, new_parser, feed}
use qh_voice_kit.Sync.{
  QhConversationTurn, build_qh_conversation_event_body, build_qh_sync_transport_request,
}
use qh_voice_kit.Sync.Client.{HttpClient}
use qh_voice_kit.Tts.{
  DoubaoTtsRequest, TtsRequestError, validate_doubao_tts_request, build_doubao_tts_body,
}

pub data HttpTransportError : Type 0 where
  none invalid_request connection auth rate_limited provider protocol too_large : HttpTransportError

pub record ReplyTransportResult : Type 0 where
  pub error : HttpTransportError
  pub http_status : ℤ
  pub text : Bytes

pub record TtsTransportResult : Type 0 where
  pub error : HttpTransportError
  pub http_status : ℤ
  pub provider_code : ℕ
  pub audio : Bytes

pub record QhSyncTransportResult : Type 0 where
  pub error : HttpTransportError
  pub http_status : ℤ

unfoldable pub map_reply_transport_error : ReplyError → HttpTransportError
map_reply_transport_error ReplyError.no_error = none
map_reply_transport_error ReplyError.auth = auth
map_reply_transport_error ReplyError.rate_limited = rate_limited
map_reply_transport_error ReplyError.provider = provider
map_reply_transport_error ReplyError.protocol = protocol

abbrev reply_result : HttpTransportError → ℤ → Bytes → ReplyTransportResult
reply_result error status text = record { error = error; http_status = status; text = text }

-- Behind the answer.
unfoldable pub reply_of_response : ℤ → Option OpenAiReply → ReplyTransportResult
reply_of_response status Option.none = reply_result protocol status []
reply_of_response status (some reply) = reply_result none status reply.text

abbrev tts_result : HttpTransportError → ℤ → ℕ → Bytes → TtsTransportResult
tts_result error status code audio = record {
  error = error;
  http_status = status;
  provider_code = code;
  audio = audio;
}

-- `TtsSseStream::write`: the number of bytes taken.
unfoldable pub write : Bytes → DoubaoTtsSseParser → ℕ × DoubaoTtsSseParser
unfolding feed
write buffer parser =
    let (kept, after) = feed buffer parser in (if kept then length buffer else 0, after)

-- The error for a parser that has not come to the end of its stream.
unfoldable pub stream_error : DoubaoTtsStatus → HttpTransportError
stream_error DoubaoTtsStatus.provider_error = provider
stream_error DoubaoTtsStatus.too_large = too_large
stream_error _ = protocol

-- Behind the stream: the parser, and whether the client reported less than 0 bytes.
unfoldable pub tts_of_stream : ℤ → ℤ → DoubaoTtsSseParser → TtsTransportResult
unfolding stream_error
tts_of_stream status streamed parser =
    let (finished, after) = Sse.finish parser in
    if not (at_least streamed 0)
    then tts_result (stream_error parser.status) status parser.provider_code []
    else if not finished
    then tts_result (stream_error after.status) status after.provider_code []
    else tts_result none status after.provider_code after.audio

-- The error of a status; `none` goes on to the answer.
unfoldable pub status_error : ℤ → HttpTransportError
status_error status =
    if not (at_least status 1)
    then connection
    else if is status 401 || is status 403
    then auth
    else if is status 429
    then rate_limited
    else if below status 200 || at_least status 300
    then if at_least status 500 then provider else protocol
    else none

abbrev pub is_valid : TtsRequestError → Bool
is_valid TtsRequestError.none = true
is_valid _ = false

unfoldable pub is_none : HttpTransportError → Bool
is_none none = true
is_none _ = false

module _ {S : Type 0} (http : HttpClient S) where
  -- `ReplyConfig` is declared nowhere; the two members that are used are arguments.
  unfoldable pub request_openai_reply :
      Bytes → Bytes → OpenAiReplyRequest → S → ReplyTransportResult × S
  unfolding map_reply_transport_error reply_of_response
  request_openai_reply endpoint credential reply_request client =
      let (begun, client1) = http.begin endpoint client in
      let transport = build_openai_reply_transport_request endpoint credential in
      let (status, client2) =
        http.post transport.headers (build_openai_reply_body reply_request) client1 in
      let mapped = map_reply_transport_error (map_reply_http_status status) in
      let (response, client3) = http.get_string client2 in
      if not begun
      then (reply_result invalid_request (pos 0) [], client1)
      else if not (at_least status 1)
      then (reply_result connection status [], http.end client2)
      else if not (is_none mapped)
      then (reply_result mapped status [], http.end client2)
      else (reply_of_response status (parse_openai_reply response), http.end client3)

  -- `writeToStream` is the second parameter: what the client writes to the sink, and its result.
  -- `TtsConfig` is declared nowhere; the members that are used are arguments.
  module _ (write_to_stream : DoubaoTtsSseParser → S → ℤ × DoubaoTtsSseParser × S) where
    unfoldable pub request_doubao_tts :
        Bytes → Bytes → Bytes → DoubaoTtsRequest → Bytes → ℕ → S → TtsTransportResult × S
    unfolding tts_of_stream status_error
    request_doubao_tts endpoint credential resource_id tts_request request_id max_audio_bytes
          client =
        let (begun, client1) = http.begin endpoint client in
        let transport =
          build_doubao_tts_transport_request endpoint credential resource_id request_id in
        let (status, client2) =
          http.post transport.headers (build_doubao_tts_body tts_request) client1 in
        let (streamed, parser, client3) = write_to_stream (new_parser max_audio_bytes) client2 in
        let error = status_error status in
        if not (is_valid (validate_doubao_tts_request tts_request))
        then (tts_result invalid_request (pos 0) 0 [], client)
        else if not begun
        then (tts_result invalid_request (pos 0) 0 [], client1)
        else if not (is_none error)
        then (tts_result error status 0 [], http.end client2)
        else (tts_of_stream status streamed parser, http.end client3)

  unfoldable pub post_qh_conversation_turn :
      QhSyncConfig → QhConversationTurn → S → QhSyncTransportResult × S
  unfolding status_error
  post_qh_conversation_turn config turn client =
      let (begun, client1) = http.begin config.endpoint client in
      let transport = build_qh_sync_transport_request config.endpoint config.credential in
      let (status, client2) =
        http.post transport.headers (build_qh_conversation_event_body turn) client1 in
      if not config.enabled
      then (record { error = none; http_status = pos 0 }, client)
      else if not begun
      then (record { error = invalid_request; http_status = pos 0 }, client1)
      else (record { error = status_error status; http_status = status }, http.end client2)
