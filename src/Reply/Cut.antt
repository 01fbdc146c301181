-- ===== src/Reply/Cut.antt =====
-- openai_reply_protocol.h: where `truncateUtf8` cuts.
use qh_voice_kit.Base.Tables.{all_below, all_below→at}
use qh_voice_kit.Base.{
  ◌/◌, ◌%◌, ◌<◌, Bool, bit_and, ◌==◌, ==_iff, Bool-cases, inl, inr, if◌then◌else◌, ℕ, zero, suc,
  ◌+◌, ◌-◌, ◌≡◌, refl, ap, ◌∙◌, true, false, List, [], ◌∷◌, ◌++◌, arith, ltb, length, take, All,
  length-append, take-append, drop-append,
}
use qh_voice_kit.Base.Bytes.{Bytes}
use qh_voice_kit.Reply.{character_width, all_continuations, cut_at, truncate_utf8}

take-append_add : (a b : Bytes) (n : ℕ) → take (length a + n) (a ++ b) ≡ a ++ take n b
take-append_add [] b n = ap (λ (k : ℕ). take k b) (omega arith)
take-append_add (x ∷ a) b n =
    let e : suc (length a) + n ≡ suc (length a + n) = omega arith in
    rw e (ap (λ (t : Bytes). x ∷ t) (take-append_add a b n))

-- The bytes of a character in UTF-8, by its code point.
unfoldable pub utf8 : ℕ → Bytes
utf8 c =
    if ltb c 0x80
    then c ∷ []
    else if ltb c 0x800
    then (0xC0 + c / 64) ∷ (0x80 + c % 64) ∷ []
    else if ltb c 0x10000
    then (0xE0 + c / 4096) ∷ (0x80 + c / 64 % 64) ∷ (0x80 + c % 64) ∷ []
    else (0xF0 + c / 262144) ∷ (0x80 + c / 4096 % 64) ∷ (0x80 + c / 64 % 64) ∷ (0x80 + c % 64) ∷ []

abbrev pub IsCodePoint : ℕ → Type 0
IsCodePoint c = c < 0x110000

abbrev pub text_of : List ℕ → Bytes
text_of [] = []
text_of (c ∷ characters) = utf8 c ++ text_of characters

-- A leading byte and as many continuations as the code says that it announces.
IsCharacter : Bytes → Type 0
IsCharacter [] = ⊥
IsCharacter (lead ∷ more) =
    (character_width lead ≡ suc (length more)) × (all_continuations more ≡ true)

-- What the masks say of a leading byte, and of a continuation.
announces : ℕ → ℕ → ℕ → Bool
announces lead width x = character_width (lead + x) == width

width-lead :
    (lead width bound : ℕ)
    → all_below bound (announces lead width) ≡ true
    → (x : ℕ) → x < bound
    → character_width (lead + x) ≡ width
unfolding announces
width-lead lead width bound all x h =
    (==_iff (character_width (lead + x)) width).0
      (all_below→at bound (announces lead width) all x h)

announces_all :
    (all_below 128 (announces 0 1) ≡ true)
    × (all_below 32 (announces 0xC0 2) ≡ true)
    × (all_below 16 (announces 0xE0 3) ≡ true)
    × (all_below 8 (announces 0xF0 4) ≡ true)
unfolding all_below announces character_width
announces_all = (refl, refl, refl, refl)

continues : ℕ → Bool
continues x = bit_and (0x80 + x) 0xC0 == 0x80

continues_all : all_below 64 continues ≡ true
unfolding all_below continues
continues_all = refl

continuation : (x : ℕ) → (bit_and (0x80 + x % 64) 0xC0 == 0x80) ≡ true
unfolding continues
continuation x = all_below→at 64 continues continues_all (x % 64) (omega arith)

lead-IsCharacter :
    (lead : ℕ) (more : Bytes)
    → character_width lead ≡ suc (length more)
    → all_continuations more ≡ true
    → IsCharacter (lead ∷ more)
unfolding IsCharacter
lead-IsCharacter lead more w v = (w, v)

ltb-lt : {a b : ℕ} → ltb a b ≡ true → a < b
ltb-lt h = ground arith

utf8-IsCharacter : (c : ℕ) → IsCodePoint c → IsCharacter (utf8 c)
unfolding utf8 all_continuations
utf8-IsCharacter c h =
    let (one, two, three, four) = announces_all in
    elim (Bool-cases (ltb c 0x80)) [
      | inl k ↦ rw k (
          lead-IsCharacter c []
            (ap character_width (omega arith) ∙ width-lead 0 1 128 one c (ltb-lt k)) refl)
      | inr n1 ↦ elim (Bool-cases (ltb c 0x800)) [
        | inl k ↦
            rw (n1, k)
              (lead-IsCharacter (0xC0 + c / 64) _
                (width-lead 0xC0 2 32 two (c / 64) (omega (arith, ltb-lt k)))
                (rw (continuation c) refl))
        | inr n2 ↦ elim (Bool-cases (ltb c 0x10000)) [
          | inl k ↦
              rw (n1, n2, k)
                (lead-IsCharacter (0xE0 + c / 4096) _
                  (width-lead 0xE0 3 16 three (c / 4096) (omega (arith, ltb-lt k)))
                  (rw (continuation (c / 64), continuation c) refl))
          | inr n3 ↦
              rw (n1, n2, n3)
                (lead-IsCharacter (0xF0 + c / 262144) _
                  (width-lead 0xF0 4 8 four (c / 262144) (omega (arith, h)))
                  (rw (continuation (c / 4096), continuation (c / 64), continuation c) refl))
        ]
      ]
    ]

cut_at-character :
    (n : ℕ) (c rest : Bytes) → IsCharacter c → cut_at (suc n) (c ++ rest) ≡ length c + cut_at n rest
unfolding cut_at IsCharacter
cut_at-character n [] rest h = absurd h
cut_at-character n (lead ∷ more) rest (w, v) =
    let fits : ltb (suc (length (more ++ rest))) (suc (length more)) ≡ false =
      ground (arith, length-append more rest) in
    let less : suc (length more) - 1 ≡ length more = omega arith in
    rw (w, less, take-append more rest, v, drop-append more rest, fits) refl

-- A text of characters in UTF-8 is cut behind the given number of characters, or kept whole when it
-- has no more.
pub truncate_utf8-text_of :
    (characters : List ℕ) (n : ℕ)
    → All IsCodePoint characters
    → truncate_utf8 (text_of characters) n ≡ text_of (take n characters)
unfolding truncate_utf8
truncate_utf8-text_of characters zero h = refl
truncate_utf8-text_of [] (suc n) h = refl
truncate_utf8-text_of (c ∷ characters) (suc n) (hc, h) =
    rw (cut_at-character n (utf8 c) (text_of characters) (utf8-IsCharacter c hc)) (
      take-append_add (utf8 c) (text_of characters) (cut_at n (text_of characters))
      ∙ ap (λ (t : Bytes). utf8 c ++ t) (truncate_utf8-text_of characters n h))
