-- ===== src/Json/Fuel.antt =====
-- json_string.h: the fuel of the reader.
use qh_voice_kit.Base.{ℕ, zero, suc, ◌<◌, ◌≡◌, refl, ◌∙◌, sym, Option, [], ◌∷◌, arith, length}
use qh_voice_kit.Base.Bytes.{Bytes}
use qh_voice_kit.Json.{
  Round, goes_on, returned, parse_unicode, parse_escape, parse_round, parse_loop,
}

-- The text that a round leaves is shorter than the given one.
abbrev pub Shrinks : ℕ → Round → Type 0
Shrinks n (returned r) = Unit
Shrinks n (goes_on out rest) = length rest < n

parse_unicode-Shrinks : (out text : Bytes) → Shrinks (suc (length text)) (parse_unicode out text)
unfolding parse_unicode
parse_unicode-Shrinks out (a ∷ b ∷ c ∷ d ∷ rest) = ground arith
parse_unicode-Shrinks out _ = tt

parse_escape-Shrinks : (out text : Bytes) → Shrinks (suc (length text)) (parse_escape out text)
unfolding parse_escape
parse_escape-Shrinks out [] = tt
parse_escape-Shrinks out (e ∷ rest) = ground (arith, parse_unicode-Shrinks out rest)

parse_round-Shrinks : (out text : Bytes) → Shrinks (length text) (parse_round out text)
unfolding parse_round
parse_round-Shrinks out [] = tt
parse_round-Shrinks out (c ∷ rest) = ground (arith, parse_escape-Shrinks out rest)

finish : ℕ → Round → Option Bytes
unfolding parse_loop
finish fuel (returned r) = r
finish fuel (goes_on out rest) = parse_loop fuel out rest

parse_loop-suc :
    (fuel : ℕ) (out text : Bytes)
    → parse_loop (suc fuel) out text ≡ finish fuel (parse_round out text)
unfolding parse_loop finish
parse_loop-suc fuel out text = elim (parse_round out text) [
  | returned r ↦ refl
  | goes_on o r ↦ refl
]

finish_enough :
    (m n k : ℕ) (r : Round)
    → ((out text : Bytes) → length text < k → parse_loop m out text ≡ parse_loop n out text)
    → Shrinks k r
    → finish m r ≡ finish n r
unfolding finish
finish_enough m n k (returned r) same h = refl
finish_enough m n k (goes_on out rest) same h = same out rest h

-- Two amounts of fuel greater than the length of the text give the same result.
pub parse_loop_enough :
    (m n : ℕ) (out text : Bytes)
    → length text < m
    → length text < n
    → parse_loop m out text ≡ parse_loop n out text
parse_loop_enough zero n out text hm hn = absurd (omega arith)
parse_loop_enough (suc m) zero out text hm hn = absurd (omega arith)
parse_loop_enough (suc m) (suc n) out text hm hn =
    parse_loop-suc m out text
    ∙ finish_enough m n (length text) (parse_round out text)
        (λ o t lt. parse_loop_enough m n o t (omega arith) (omega arith))
        (parse_round-Shrinks out text)
    ∙ sym (parse_loop-suc n out text)
