-- ===== src/Http/Speech.antt =====
-- provider_http_transport.h: the audio that a request to the speech service returns.
use qh_voice_kit.Base.{
  ℕ, ◌^◌, ◌≤◌, ◌<◌, ◌≡◌, ◌⊎◌, inl, inr, refl, true, List, [], ◌∷◌, arith, length, unless_both,
}
use qh_voice_kit.Base.Bytes.{Bytes}
use qh_voice_kit.Base.Integers.{ℤ, at_least}
use qh_voice_kit.Http.{
  TtsTransportResult, write, tts_of_stream, is_none, request_doubao_tts, status_error, is_valid,
}
use qh_voice_kit.Sse
use qh_voice_kit.Sse.{DoubaoTtsSseParser, new_parser, feed}
use qh_voice_kit.Sse.Bounded.{feed_all, feed_all-Ready, new_parser-Ready, Ready-length}
use qh_voice_kit.Sse.Outcome.{Ready, Outcome-Ready, finish-Outcome}
use qh_voice_kit.Sync.Client.{HttpClient}
use qh_voice_kit.Provider.{build_doubao_tts_transport_request}
use qh_voice_kit.Tts.{build_doubao_tts_body, DoubaoTtsRequest, validate_doubao_tts_request}

-- Buffers written to the sink of a parser, one after the other.
abbrev pub written : List Bytes → DoubaoTtsSseParser → DoubaoTtsSseParser
written [] parser = parser
written (buffer ∷ buffers) parser = written buffers (write buffer parser).1

written-feed_all :
    (buffers : List Bytes) (p : DoubaoTtsSseParser) → written buffers p ≡ feed_all buffers p
unfolding feed_all write
written-feed_all [] p = refl
written-feed_all (b ∷ buffers) p = written-feed_all buffers (feed b p).1

-- The audio fits the bound, and only a result without an error has any.
abbrev pub IsSpeech : ℕ → TtsTransportResult → Type 0
IsSpeech max r = (length r.audio ≤ max) × ((is_none r.error ≡ true) ⊎ (r.audio ≡ []))

module _ (max : ℕ) (small : max < 2 ^ 32) where
  tts_of_stream-IsSpeech :
      (status streamed : ℤ) (parser : DoubaoTtsSseParser)
      → Ready max parser
      → IsSpeech max (tts_of_stream status streamed parser)
  unfolding tts_of_stream is_none
  tts_of_stream-IsSpeech status streamed parser h =
      unless_both (IsSpeech max) (at_least streamed 0) (λ _. (omega arith, inr refl))
        (λ _.
          unless_both (IsSpeech max) (Sse.finish parser).0 (λ _. (omega arith, inr refl))
            (λ _. (
              Ready-length max (Sse.finish parser).1
                  (Outcome-Ready max (Sse.finish parser) (finish-Outcome max parser h)),
              inl refl,
            )))

written-Ready :
    (max : ℕ)
    → max < 2 ^ 32
    → {p : DoubaoTtsSseParser} → (buffers : List Bytes) × (p ≡ written buffers (new_parser max))
    → Ready max p
written-Ready max small (buffers, e) =
    rw (e, written-feed_all buffers (new_parser max))
      (feed_all-Ready max buffers (new_parser max) (new_parser-Ready max small))

-- The speech that a request returns. The client writes the answer to the sink in some buffers,
-- whichever it has; then the returned audio is never longer than the bound of the request, and it is
-- empty unless the result reports no error.
pub request_doubao_tts-IsSpeech :
    {S : Type 0} (http : HttpClient S)
    (write_to_stream : DoubaoTtsSseParser → S → ℤ × DoubaoTtsSseParser × S)
    → ((p : DoubaoTtsSseParser) (s : S)
        → (buffers : List Bytes) × ((write_to_stream p s).1 ≡ written buffers p))
    → (endpoint credential resource_id : Bytes) (tts_request : DoubaoTtsRequest)
      (request_id : Bytes) (max_audio_bytes : ℕ) (client : S)
    → max_audio_bytes < 2 ^ 32
    → IsSpeech max_audio_bytes
        (request_doubao_tts http write_to_stream endpoint credential resource_id tts_request
          request_id max_audio_bytes client).0
unfolding request_doubao_tts
request_doubao_tts-IsSpeech {S} http stream writes endpoint credential resource_id request id max
      client small =
    let P : TtsTransportResult × S → Type 0 = λ r. IsSpeech max r.0 in
    let begun = http.begin endpoint client in
    let headers = (build_doubao_tts_transport_request endpoint credential resource_id id).headers in
    let posted = http.post headers (build_doubao_tts_body request) begun.1 in
    let streamed = stream (new_parser max) posted.1 in
    unless_both P (is_valid (validate_doubao_tts_request request)) (λ _. (omega arith, inr refl))
      (λ _.
        unless_both P begun.0 (λ _. (omega arith, inr refl))
          (λ _.
            unless_both P (is_none (status_error posted.0)) (λ _. (omega arith, inr refl))
              (λ _.
                tts_of_stream-IsSpeech max small posted.0 streamed.0 streamed.1
                  (written-Ready max small (writes (new_parser max) posted.1)))))
