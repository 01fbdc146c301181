-- ===== src/Receiver/Heard.antt =====
-- esp32_voice_kit.ino: the lines and payloads among the bytes that were read.
use mathlib.Core.List.{append_assoc, append-nil}
use qh_voice_kit.Base.{
  ℕ, ◌≡◌, refl, sym, ap, ◌∙◌, [], ◌∷◌, ◌++◌, ◌==◌, if◌then◌else◌, length, Bool-cases, inl, inr,
}
use qh_voice_kit.Base.Bytes.{Bytes}
use qh_voice_kit.Provisioning.{config, parse_provisioning_command}

-- A line as it is kept: without the characters '\r'.
unfoldable pub kept : Bytes → Bytes
kept [] = []
kept (c ∷ line) = let rest = kept line in if c == b'\r' then rest else c ∷ rest

pub kept-append : (a b : Bytes) → kept (a ++ b) ≡ kept a ++ kept b
unfolding kept
kept-append [] b = refl
kept-append (c ∷ a) b = elim (Bool-cases (c == b'\r')) [
  | inl e ↦ rw (e, kept-append a b) refl
  | inr e ↦ rw (e, kept-append a b) refl
]

-- Among the bytes there is a line that announces a payload's size and digest, and the payload
-- stands behind its end.
pub record Sent (seen payload digest : Bytes) : Type 0 where
  pub before : Bytes
  pub line : Bytes
  pub after : Bytes
  pub placed : seen ≡ before ++ (line ++ (b'\n' ∷ (payload ++ after)))
  pub announces : parse_provisioning_command (kept line) ≡ config (length payload) digest

-- The bytes end with the line that is kept.
pub record EndsLine (seen command_line : Bytes) : Type 0 where
  pub before : Bytes
  pub line : Bytes
  pub placed : seen ≡ before ++ line
  pub same_line : kept line ≡ command_line

-- The bytes end with a line that announces a size and a digest, and with the payload so far.
pub record EndsPayload (seen payload : Bytes) (size : ℕ) (digest : Bytes) : Type 0 where
  pub before : Bytes
  pub line : Bytes
  pub placed : seen ≡ before ++ (line ++ (b'\n' ∷ payload))
  pub announces : parse_provisioning_command (kept line) ≡ config size digest

pub Sent-append :
    (seen payload digest read : Bytes)
    → Sent seen payload digest
    → Sent (seen ++ read) payload digest
Sent-append seen payload digest read s = record {
  before = s.before;
  line = s.line;
  after = s.after ++ read;
  placed =
      ap (λ t. t ++ read) s.placed
      ∙ append_assoc s.before (s.line ++ (b'\n' ∷ (payload ++ s.after))) read
      ∙ ap (λ t. s.before ++ t) (append_assoc s.line (b'\n' ∷ (payload ++ s.after)) read)
      ∙ ap (λ t. s.before ++ (s.line ++ (b'\n' ∷ t))) (append_assoc payload s.after read);
  announces = s.announces;
}

pub new_line : (seen : Bytes) → EndsLine seen []
unfolding kept
new_line seen = record {
  before = seen;
  line = [];
  placed = sym (append-nil seen);
  same_line = refl;
}

pub line_more :
    (seen line : Bytes) (value : ℕ)
    → EndsLine seen line
    → EndsLine (seen ++ (value ∷ [])) (line ++ kept (value ∷ []))
line_more seen line value l = record {
  before = l.before;
  line = l.line ++ (value ∷ []);
  placed = ap (λ t. t ++ (value ∷ [])) l.placed ∙ append_assoc l.before l.line (value ∷ []);
  same_line = kept-append l.line (value ∷ []) ∙ ap (λ t. t ++ kept (value ∷ [])) l.same_line;
}

pub line_ended :
    (seen line : Bytes) (size : ℕ) (digest : Bytes)
    → EndsLine seen line
    → parse_provisioning_command line ≡ config size digest
    → EndsPayload (seen ++ (b'\n' ∷ [])) [] size digest
line_ended seen line size digest l e = record {
  before = l.before;
  line = l.line;
  placed = ap (λ t. t ++ (b'\n' ∷ [])) l.placed ∙ append_assoc l.before l.line (b'\n' ∷ []);
  announces = ap parse_provisioning_command l.same_line ∙ e;
}

pub payload_more :
    (seen payload : Bytes) (size : ℕ) (digest : Bytes) (value : ℕ)
    → EndsPayload seen payload size digest
    → EndsPayload (seen ++ (value ∷ [])) (payload ++ (value ∷ [])) size digest
payload_more seen payload size digest value p = record {
  before = p.before;
  line = p.line;
  placed =
      ap (λ t. t ++ (value ∷ [])) p.placed
      ∙ append_assoc p.before (p.line ++ (b'\n' ∷ payload)) (value ∷ [])
      ∙ ap (λ t. p.before ++ t) (append_assoc p.line (b'\n' ∷ payload) (value ∷ []));
  announces = p.announces;
}

pub EndsPayload-Sent :
    (seen payload : Bytes) (size : ℕ) (digest : Bytes)
    → EndsPayload seen payload size digest
    → length payload ≡ size
    → Sent seen payload digest
EndsPayload-Sent seen payload size digest p e = record {
  before = p.before;
  line = p.line;
  after = [];
  placed = p.placed ∙ ap (λ t. p.before ++ (p.line ++ (b'\n' ∷ t))) (sym (append-nil payload));
  announces = p.announces ∙ ap (λ n. config n digest) (sym e);
}
