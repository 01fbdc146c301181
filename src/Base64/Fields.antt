-- ===== src/Base64/Fields.antt =====
-- The bit fields of a Base64 block as arithmetic, and the alphabet as a table.
use qh_voice_kit.Base.{
  ℕ, ◌+◌, ◌*◌, ◌%◌, ◌<◌, bit_and, bit_or, Bool, true, false, not, ◌&&◌, Option, none, some, ◌≡◌,
  refl, ◌∙◌, ap, arith, ◌==◌,
}
use qh_voice_kit.Base.Bits.{bit_or_disjoint, bit_and_low}
use qh_voice_kit.Base.Tables.{all_below, all_below→at}
use qh_voice_kit.Base.Words.{◌<<<◌}
use qh_voice_kit.Base64.{letter, base64_value}

pub join_bytes :
    (a b c : ℕ)
    → a < 256
    → b < 256
    → c < 256
    → bit_or (bit_or (a <<< 16) (b <<< 8)) c ≡ a * 65536 + b * 256 + c
join_bytes a b c ha hb hc =
    ap (λ (t : ℕ). bit_or t c)
      (bit_or_disjoint 16 a (b * 256) (omega arith)
        ∙ (let e : a * 65536 + b * 256 ≡ (a * 256 + b) * 256 = omega arith in e))
    ∙ bit_or_disjoint 8 (a * 256 + b) c hc
    ∙ omega arith

pub join_sextets :
    (a b c d : ℕ)
    → b < 64
    → c < 64
    → d < 64
    → bit_or (bit_or (bit_or (a <<< 18) (b <<< 12)) (c <<< 6)) d
      ≡ a * 262144 + b * 4096 + c * 64 + d
join_sextets a b c d hb hc hd =
    ap (λ (t : ℕ). bit_or (bit_or t (c <<< 6)) d)
      (bit_or_disjoint 18 a (b * 4096) (omega arith)
        ∙ (let e : a * 262144 + b * 4096 ≡ (a * 64 + b) * 4096 = omega arith in e))
    ∙ ap (λ (t : ℕ). bit_or t d)
        (bit_or_disjoint 12 (a * 64 + b) (c * 64) (omega arith)
          ∙ (let e : (a * 64 + b) * 4096 + c * 64 ≡ (a * 4096 + b * 64 + c) * 64 = omega arith in
              e))
    ∙ bit_or_disjoint 6 (a * 4096 + b * 64 + c) d hd
    ∙ omega arith

pub low_sextet : (a : ℕ) → bit_and a 0x3f ≡ a % 64
low_sextet a = bit_and_low 6 a

is_value : Option ℕ → ℕ → Bool
is_value none i = false
is_value (some j) i = j == i

is_value→eq : (o : Option ℕ) (i : ℕ) → is_value o i ≡ true → o ≡ some i
unfolding is_value
is_value→eq o i h = ground arith

letters : all_below 64 (λ i. is_value (base64_value (letter i)) i && not (letter i == b'=')) ≡ true
unfolding all_below is_value base64_value
letters = refl

letter_table :
    (i : ℕ) → i < 64 → (is_value (base64_value (letter i)) i && not (letter i == b'=')) ≡ true
letter_table i h = all_below→at 64 _ letters i h

-- The alphabet is read back, and holds no padding sign.
pub base64_value-letter : (i : ℕ) → i < 64 → base64_value (letter i) ≡ some i
base64_value-letter i h = is_value→eq _ i (ground (arith, letter_table i h))

pub letter-ne-pad : (i : ℕ) → i < 64 → (letter i == b'=') ≡ false
letter-ne-pad i h = ground (arith, letter_table i h)
