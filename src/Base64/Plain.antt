-- ===== src/Base64/Plain.antt =====
-- realtime_voice_protocol.h: the characters of the encoded text, which JSON leaves as they are.
use qh_voice_kit.Base.{
  ℕ, bit_and, bit_or, Bool, true, false, not, ◌&&◌, ◌≡◌, refl, [], ◌∷◌, ◌++◌, arith, leb, ltb, ◌==◌,
  All, if◌then◌else◌,
}
use qh_voice_kit.Base.Bytes.{Bytes}
use qh_voice_kit.Base.Tables.{all_below, all_below→at}
use qh_voice_kit.Base.Words.{◌<<<◌, ◌>>>◌}
use qh_voice_kit.Base64.{letter, encode_block, encode_base64}
use qh_voice_kit.Base64.Fields.{low_sextet}

-- A visible ASCII character that is neither a quote nor a backslash.
abbrev pub is_plain : ℕ → Bool
is_plain c = leb 32 c && ltb c 128 && not (c == b'"') && not (c == b'\\')

abbrev pub IsPlain : Bytes → Type 0
IsPlain = All (λ c. is_plain c ≡ true)

plain_letters : all_below 64 (λ i. is_plain (letter i)) ≡ true
unfolding all_below
plain_letters = refl

plain_letter : (v : ℕ) → is_plain (letter (bit_and v 0x3f)) ≡ true
plain_letter v =
    all_below→at 64 (λ i. is_plain (letter i)) plain_letters (bit_and v 0x3f)
      (omega (arith, low_sextet v))

padded_letter : (p : Bool) (v : ℕ) → is_plain (if p then letter (bit_and v 0x3f) else b'=') ≡ true
padded_letter true v = plain_letter v
padded_letter false v = refl

encode_block-IsPlain : (a b c : ℕ) (p q : Bool) → IsPlain (encode_block a b c p q)
unfolding encode_block
encode_block-IsPlain a b c p q =
    let v = bit_or (bit_or (a <<< 16) (b <<< 8)) c in
    (
      plain_letter (v >>> 18),
      (plain_letter (v >>> 12), (padded_letter p (v >>> 6), (padded_letter q v, tt))),
    )

IsPlain-append : (s t : Bytes) → IsPlain s → IsPlain t → IsPlain (s ++ t)
IsPlain-append [] t hs ht = ht
IsPlain-append (c ∷ s) t (hc, hs) ht = (hc, IsPlain-append s t hs ht)

pub encode_base64-IsPlain : (s : Bytes) → IsPlain (encode_base64 s)
unfolding encode_base64
encode_base64-IsPlain [] = tt
encode_base64-IsPlain (a ∷ []) = encode_block-IsPlain a 0 0 false false
encode_base64-IsPlain (a ∷ b ∷ []) = encode_block-IsPlain a b 0 true false
encode_base64-IsPlain (a ∷ b ∷ c ∷ s) =
    IsPlain-append (encode_block a b c true true) (encode_base64 s)
      (encode_block-IsPlain a b c true true) (encode_base64-IsPlain s)
