-- ===== src/Asr/Numbers.antt =====
-- doubao_asr_protocol.h: `appendBigEndian32` and `readBigEndian32`.
use qh_voice_kit.Base.{ℕ, ◌+◌, ◌*◌, ◌^◌, ◌<◌, ◌≡◌, ◌∙◌, bit_or, [], ◌++◌, arith}
use qh_voice_kit.Base.Bits.{bit_or_disjoint}
use qh_voice_kit.Base.Bytes.{Bytes}
use qh_voice_kit.Base.Words.{◌<<<◌, ◌>>>◌, u8}
use qh_voice_kit.Asr.{read_big_endian32, append_big_endian32}

-- Four fields of eight bits side by side.
fields :
    (a b c d : ℕ)
    → a < 256
    → b < 256
    → c < 256
    → d < 256
    → bit_or (bit_or (bit_or (a <<< 24) (b <<< 16)) (c <<< 8)) d
      ≡ a * 16777216 + b * 65536 + c * 256 + d
fields a b c d ha hb hc hd =
    let ab : bit_or (a <<< 24) (b <<< 16) ≡ (a * 256 + b) * 2 ^ 16 =
      omega (arith, bit_or_disjoint 24 a (b <<< 16) (omega arith)) in
    let abc : bit_or ((a * 256 + b) * 2 ^ 16) (c <<< 8) ≡ (a * 65536 + b * 256 + c) * 2 ^ 8 =
      omega (arith, bit_or_disjoint 16 (a * 256 + b) (c <<< 8) (omega arith)) in
    rw (ab, abc) (omega (arith, bit_or_disjoint 8 (a * 65536 + b * 256 + c) d (omega arith)))

pub read_big_endian32-append :
    (value : ℕ) (rest : Bytes)
    → value < 2 ^ 32
    → read_big_endian32 (append_big_endian32 [] value ++ rest) ≡ value
unfolding read_big_endian32 append_big_endian32
read_big_endian32-append value rest h =
    fields (u8 (value >>> 24)) (u8 (value >>> 16)) (u8 (value >>> 8)) (u8 value) (omega arith)
      (omega arith) (omega arith) (omega arith)
    ∙ (omega arith)
