-- ===== src/Reply/Content.antt =====
-- openai_reply_protocol.h: what `parseOpenAiReply` reads of an answer.
use qh_voice_kit.Base.{
  ℕ, suc, ◌+◌, ◌≡◌, refl, sym, ap, ◌∙◌, false, none, some, [], ◌∷◌, ◌++◌, length, drop, drop-append,
  arith,
}
use mathlib.Core.List.{append_assoc}
use qh_voice_kit.Base.Bytes.{Bytes, IsBytes, codes, is_empty}
use qh_voice_kit.Base.Search.{find_first, find_text, find_text-behind}
use qh_voice_kit.Json.{escape_json_string, find_json_string, find_value, skip_space}
use qh_voice_kit.Json.RoundTrip.{parse_json_string-escape_json_string}
use qh_voice_kit.Reply.{find_from, is_blank, parse_openai_reply}

abbrev choices_key : Bytes
choices_key = codes "\"choices\""

abbrev message_key : Bytes
message_key = codes "\"message\""

-- The key, its colon, the quote that opens the text, the escaped text, the closing quote, and any
-- further text.
abbrev pub content_member : Bytes → Bytes → Bytes
content_member content rest =
    codes "\"content\":\"" ++ (escape_json_string content ++ (b'"' ∷ rest))

-- An answer with any texts before its key `choices`, from there to the key `message`, from there to
-- the key `content`, and behind the content.
abbrev pub answer : Bytes → Bytes → Bytes → Bytes → Bytes → Bytes
answer before between inner content rest =
    before ++ (choices_key ++ (between ++ (message_key ++ (inner ++ content_member content rest))))

-- A quoted key, whose closing quote is left out, does not start in a text in front of it.
abbrev pub StartsBehind : Bytes → Bytes → Type 0
StartsBehind key text = find_text (key ++ (b'"' ∷ [])) (text ++ key) ≡ none

not_empty : (content : Bytes) → is_blank content ≡ false → is_empty content ≡ false
unfolding is_blank
not_empty [] h = absurd (cc h)
not_empty (_ ∷ _) h = refl

drop-append_add : (a b : Bytes) (n : ℕ) → drop (length a + n) (a ++ b) ≡ drop n b
drop-append_add [] b n = ap (λ (k : ℕ). drop k b) (omega arith)
drop-append_add (x ∷ a) b n =
    let e : suc (length a) + n ≡ suc (length a + n) = omega arith in rw e (drop-append_add a b n)

-- The string behind the first occurrence of a key.
find_json_string-behind :
    (head key content rest : Bytes)
    → IsBytes content
    → StartsBehind (b'"' ∷ key) head
    → find_json_string
        (head
          ++ (b'"' ∷ (key ++ (b'"' ∷ b':' ∷ b'"' ∷ (escape_json_string content ++ (b'"' ∷ rest))))))
        key
        0
      ≡ some content
unfolding find_json_string find_value find_first skip_space
find_json_string-behind head key content rest h free =
    let string = b'"' ∷ (escape_json_string content ++ (b'"' ∷ rest)) in
    let needle = b'"' ∷ (key ++ (b'"' ∷ [])) in
    let behind : drop (length head + length needle)
          (head ++ (b'"' ∷ (key ++ (b'"' ∷ b':' ∷ string))))
        ≡ b':' ∷ string =
      drop-append_add head (b'"' ∷ (key ++ (b'"' ∷ b':' ∷ string))) (length needle)
      ∙ ap (λ t. drop (length needle) (b'"' ∷ t))
          (sym (append_assoc key (b'"' ∷ []) (b':' ∷ string)))
      ∙ drop-append needle (b':' ∷ string) in
    rw (find_text-behind (b'"' ∷ key) b'"' head (b':' ∷ string) free, behind)
      (parse_json_string-escape_json_string content rest h)

find_from-at :
    (needle text : Bytes) (start at : ℕ)
    → find_text needle (drop start text) ≡ some at
    → find_from needle text start ≡ some (start + at)
unfolding find_from
find_from-at needle text start at h = rw h refl

find_json_string-drop :
    (json key : Bytes) (start : ℕ)
    → find_json_string json key start ≡ find_json_string (drop start json) key 0
unfolding find_json_string find_value
find_json_string-drop json key start = refl

-- When the key `choices` starts in nothing before it, the key `message` in nothing from there, and
-- the key `content` in nothing from the key `message`, the content is read back, whatever bytes it
-- has and whatever the texts between the keys and behind it are, unless it is blank.
pub parse_openai_reply-answer :
    (before between inner content rest : Bytes)
    → IsBytes content
    → is_blank content ≡ false
    → StartsBehind (codes "\"choices") before
    → StartsBehind (codes "\"message") (choices_key ++ between)
    → StartsBehind (codes "\"content") (message_key ++ inner)
    → parse_openai_reply (answer before between inner content rest)
      ≡ some (record { text = content })
unfolding parse_openai_reply
parse_openai_reply-answer before between inner content rest h b first second third =
    let json = answer before between inner content rest in
    let from_content = content_member content rest in
    let from_message = message_key ++ (inner ++ from_content) in
    let from_choices = choices_key ++ (between ++ from_message) in
    let middle = choices_key ++ between in
    let message_at = length before + length middle in
    let choices : find_from (codes "\"choices\"") json 0 ≡ some (length before) =
      find_from-at (codes "\"choices\"") json 0 (length before)
        (find_text-behind (codes "\"choices") b'"' before (between ++ from_message) first)
      ∙ ap some (omega arith) in
    let message : find_from (codes "\"message\"") json (length before) ≡ some message_at =
      find_from-at (codes "\"message\"") json (length before) (length middle) (
        ap (find_text (codes "\"message\"")) (drop-append before from_choices)
        ∙ find_text-behind (codes "\"message") b'"' middle (inner ++ from_content) second) in
    let found : find_json_string json (codes "content") message_at ≡ some content =
      find_json_string-drop json (codes "content") message_at
      ∙ ap (λ t. find_json_string t (codes "content") 0)
          (drop-append_add before from_choices (length middle) ∙ drop-append middle from_message)
      ∙ find_json_string-behind (message_key ++ inner) (codes "content") content rest h third in
    rw (choices, message, found, not_empty content b, b) refl
