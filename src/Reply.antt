-- ===== src/Reply.antt =====
-- firmware/esp32_voice_kit/openai_reply_protocol.h: the request to a reply service, its answer, and
-- the cut of a text for the display. Children: what is read back, and where a text is cut.
pub mod Content
pub mod Cut
use qh_voice_kit.Base.{
  ℕ, zero, suc, ◌+◌, ◌-◌, bit_and, Bool, true, false, ◌&&◌, ◌||◌, Option, none, some, [], ◌∷◌, ◌++◌,
  ltb, ◌==◌, if◌then◌else◌, length, take, drop,
}
use qh_voice_kit.Base.Bytes.{Bytes, codes, is_empty}
use qh_voice_kit.Base.Decimal.{to_decimal}
use qh_voice_kit.Base.Integers.{ℤ, is, at_least, below}
use qh_voice_kit.Base.Search.{find_text}
use qh_voice_kit.Json.{◌>>=◌, escape_json_string, find_json_string, is_space}

pub record OpenAiReplyRequest : Type 0 where
  pub model : Bytes
  pub system_prompt : Bytes
  pub user_text : Bytes
  pub max_tokens : ℕ  -- uint16_t

-- `OpenAiReply` holds the text alone.
pub record OpenAiReply : Type 0 where
  pub text : Bytes

pub data ReplyError : Type 0 where
  no_error auth rate_limited provider protocol : ReplyError

unfoldable pub build_openai_reply_body : OpenAiReplyRequest → Bytes
build_openai_reply_body request =
    codes "{\"model\":\""
    ++ (escape_json_string request.model
        ++ (codes "\",\"messages\":[{\"role\":\"system\",\"content\":\""
            ++ (escape_json_string request.system_prompt
                ++ (codes "\"},{\"role\":\"user\",\"content\":\""
                    ++ (escape_json_string request.user_text
                        ++ (codes "\"}],\"stream\":false,\"max_tokens\":"
                            ++ (to_decimal request.max_tokens ++ codes "}")))))))

unfoldable pub is_blank : Bytes → Bool
is_blank [] = true
is_blank (c ∷ value) = is_space c && is_blank value

-- The offset of a text in what follows an offset, counted from the start.
unfoldable pub find_from : Bytes → Bytes → ℕ → Option ℕ
unfolding find_text
find_from needle text start = do at ← find_text needle (drop start text); some (start + at)

unfoldable pub parse_openai_reply : Bytes → Option OpenAiReply
unfolding is_blank find_from
parse_openai_reply json = do
  choices ← find_from (codes "\"choices\"") json 0
  message ← find_from (codes "\"message\"") json choices
  content ← find_json_string json (codes "content") message
  if is_empty content || is_blank content then none else some (record { text = content })

unfoldable pub map_reply_http_status : ℤ → ReplyError
map_reply_http_status status =
    if at_least status 200 && below status 300
    then no_error
    else if is status 401 || is status 403
    then auth
    else if is status 429
    then rate_limited
    else if at_least status 500 && below status 600
    then provider
    else protocol

-- The bytes that a leading byte announces.
unfoldable pub character_width : ℕ → ℕ
character_width lead =
    if bit_and lead 0xE0 == 0xC0
    then 2
    else if bit_and lead 0xF0 == 0xE0
    then 3
    else if bit_and lead 0xF8 == 0xF0
    then 4
    else 1

-- The loop that tests the bytes behind the leading one.
unfoldable pub all_continuations : Bytes → Bool
all_continuations [] = true
all_continuations (c ∷ text) = bit_and c 0xC0 == 0x80 && all_continuations text

-- How far the cursor moves, given the characters left to take; the text is that from the cursor on.
unfoldable pub cut_at : ℕ → Bytes → ℕ
unfolding character_width all_continuations
cut_at zero text = 0
cut_at (suc characters) [] = 0
cut_at (suc characters) (lead ∷ text) =
    let width = character_width lead in
    let step = if all_continuations (take (width - 1) text) then width else 1 in
    let later = cut_at characters (drop step (lead ∷ text)) in
    if ltb (length (lead ∷ text)) width then 0 else step + later

unfoldable pub truncate_utf8 : Bytes → ℕ → Bytes
unfolding cut_at
truncate_utf8 text maximum_characters = take (cut_at maximum_characters text) text
