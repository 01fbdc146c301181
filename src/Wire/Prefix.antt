-- ===== src/Wire/Prefix.antt =====
-- device_config_wire.h: no accepted input is the beginning of another.
use qh_voice_kit.Base.{
  ℕ, Bool, ◌∷◌, ◌++◌, ◌≡◌, sym, ◌∙◌, ap, drop, get_or, drop-append_le, get_or-append_lt,
}
use qh_voice_kit.Base.Bytes.{Bytes, IsBytes}
use qh_voice_kit.Config.{DeviceConfig}
use qh_voice_kit.Wire.{
  done, ◌>>=◌, decode_fields, fresh_progress, finish_decode, decode_device_config_wire,
}
use qh_voice_kit.Wire.Fields.{decode_fields-encode_fields}
use qh_voice_kit.Wire.Sound.{Accepted, decode-Accepted, decode-inv, finish_decode-inv}

-- With more behind an accepted input the loop ends in front of what was added.
loop-append :
    {input : Bytes} {c : DeviceConfig} (more : Bytes) (a : Accepted input c)
    → decode_fields (get_or (input ++ more) 5 0) fresh_progress (drop 6 (input ++ more))
      ≡ done (record { config = c; seen = a.seen }, more)
loop-append {input} more a =
    rw (get_or-append_lt input more 5 0 a.header, drop-append_le 6 input more a.header)
      (rw (a.text, ← a.count)
        (decode_fields-encode_fields a.fields fresh_progress more a.fit ∙ rw a.effect))

-- An input that is accepted is refused as soon as anything follows it: no accepted input is a
-- proper beginning of another, so a truncated one is never taken for a whole.
pub decode_append-ne-done :
    (input : Bytes) (x : ℕ) (more : Bytes) (null null' : Bool) {c c' : DeviceConfig}
    → IsBytes input
    → decode_device_config_wire null input ≡ done c
    → ¬ (decode_device_config_wire null' (input ++ (x ∷ more)) ≡ done c')
decode_append-ne-done input x more null null' b h h' =
    let a = decode-Accepted null input b h in
    let (_, _, _, run) = decode-inv null' (input ++ (x ∷ more)) h' in
    let (none_left, _, _, _) =
      finish_decode-inv _ (x ∷ more)
        (ap (λ r. r >>= λ q. finish_decode q.0 q.1) (sym (loop-append (x ∷ more) a)) ∙ run) in
    cc none_left
