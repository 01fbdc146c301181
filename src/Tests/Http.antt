-- ===== src/Tests/Http.antt =====
-- The requests over HTTP at concrete values, with a client that keeps what it is sent.
use qh_voice_kit.Base.{ℕ, ◌++◌, ◌≡◌, refl, true, false, some, List, [], ◌∷◌, arith, take, All}
use qh_voice_kit.Base.Bytes.{Bytes, IsBytes, codes}
use qh_voice_kit.Base.Integers.{ℤ, pos, negsuc}
use qh_voice_kit.Config.{QhSyncConfig}
use qh_voice_kit.Http.{request_doubao_tts}
use qh_voice_kit.Http.Speech.{written, IsSpeech, request_doubao_tts-IsSpeech}
use qh_voice_kit.Reply.{is_blank, parse_openai_reply, truncate_utf8}
use qh_voice_kit.Base.Search.{find_text, begins_with}
use qh_voice_kit.Reply.Content.{answer, StartsBehind, parse_openai_reply-answer}
use qh_voice_kit.Reply.Cut.{IsCodePoint, text_of, truncate_utf8-text_of}
use qh_voice_kit.Sse.{DoubaoTtsSseParser}
use qh_voice_kit.Sync.{QhConversationTurn}
use qh_voice_kit.Sync.Client.{HttpClient}
use qh_voice_kit.Tts.{DoubaoTtsRequest}

-- The state is the bodies that were posted.
abbrev client : HttpClient (List Bytes)
client = record {
  begin = λ _ s. (true, s);
  post = λ _ body s. (pos 200, body ∷ s);
  get_string = λ s. ([], s);
  end = λ s. s;
}

abbrev speech : DoubaoTtsRequest
speech = record {
  user_id = codes "kit";
  text = codes "hello";
  speaker = codes "voice";
  audio_format = codes "pcm";
  sample_rate = 16000;
  speech_rate = negsuc 9;
  loudness_rate = pos 0;
}

-- The answer, in two buffers.
abbrev buffers : List Bytes
buffers =
    codes "event: 352\ndata: {\"code\":0,\"data\":\"AQID\"}\n\nev"
    ∷ codes "ent: 152\ndata: {\"code\":20000000}\n\n"
    ∷ []

abbrev stream : DoubaoTtsSseParser → List Bytes → ℤ × DoubaoTtsSseParser × List Bytes
stream parser s = (pos 80, written buffers parser, s)

request_doubao_tts-IsSpeech_example :
    IsSpeech 64
      (request_doubao_tts client stream
        (codes "https://a/b")
        (codes "key")
        (codes "res")
        speech
        (codes "id")
        64
        []).0
request_doubao_tts-IsSpeech_example =
    request_doubao_tts-IsSpeech client stream (λ _ _. (buffers, refl)) (codes "https://a/b")
      (codes "key") (codes "res") speech (codes "id") 64 [] (omega arith)

words_not_blank : is_blank (codes "a \"b\"") ≡ false
unfolding is_blank
words_not_blank = refl

words_IsBytes : IsBytes (codes "a \"b\"")
words_IsBytes = omega arith

abbrev before : Bytes
before = codes "{\"id\":\"7\","

abbrev between : Bytes
between = codes ":[{\"index\":0,"

abbrev inner : Bytes
inner = codes ":{\"role\":\"assistant\","

keys_start :
    StartsBehind (codes "\"choices") before
    × StartsBehind (codes "\"message") (codes "\"choices\"" ++ between)
    × StartsBehind (codes "\"content") (codes "\"message\"" ++ inner)
unfolding find_text begins_with
keys_start = (refl, refl, refl)

parse_openai_reply-answer_example :
    parse_openai_reply (answer before between inner (codes "a \"b\"") (codes "}}]}"))
    ≡ some (record { text = codes "a \"b\"" })
parse_openai_reply-answer_example =
    parse_openai_reply-answer before between inner (codes "a \"b\"") (codes "}}]}") words_IsBytes
      words_not_blank keys_start.0 keys_start.1 keys_start.2

-- "h", "é" and "€".
abbrev characters : List ℕ
characters = 104 ∷ 233 ∷ 8364 ∷ []

are_characters : All IsCodePoint characters
are_characters = (omega arith, (omega arith, (omega arith, tt)))

truncate_utf8-text_of_example : truncate_utf8 (text_of characters) 2 ≡ text_of (take 2 characters)
truncate_utf8-text_of_example = truncate_utf8-text_of characters 2 are_characters

abbrev sync : QhSyncConfig
sync = record {
  enabled = true;
  endpoint = codes "https://a/b";
  device_id = codes "kit";
  credential = codes "key";
}

abbrev turn : QhConversationTurn
turn = record {
  conversation_id = codes "c";
  turn_id = codes "t";
  occurred_at = codes "now";
  transcript = codes "hello";
  reply = codes "hi";
}
