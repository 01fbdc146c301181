-- ===== src/Sse/Chunks.antt =====
-- doubao_tts_sse.h: `feed` called with the parts of a text.
use qh_voice_kit.Base.{
  elim_both, ◌≡◌, refl, ap, sym, ◌∙◌, Bool, true, false, ◌++◌, [], ◌∷◌, Bool-cases, inl, inr, ◌^◌,
  ◌<◌, List, ℕ,
}
use qh_voice_kit.Base.Bytes.{Bytes}
use qh_voice_kit.Sse.{DoubaoTtsSseParser, new_parser, is_error, feed_byte, feed_bytes, feed}
use qh_voice_kit.Sse.Bounded.{feed_all, new_parser-Ready}
use qh_voice_kit.Sse.Outcome.{
  Live, Ready, Ready-Live, Outcome-Live, Outcome-Failed, feed_byte-Outcome, feed-Outcome,
  Outcome-Ready,
}

module _ (x : ℕ) (text : Bytes) (p : DoubaoTtsSseParser) where
  feed_bytes-cons :
      (feed_byte x p).0 ≡ true → feed_bytes (x ∷ text) p ≡ feed_bytes text (feed_byte x p).1
  unfolding feed_bytes
  feed_bytes-cons e =
      elim_both (λ (r : Bool × DoubaoTtsSseParser). r ≡ feed_bytes text (feed_byte x p).1)
        (feed_byte x p).0 (λ _. refl) (λ f. absurd (cc (e, f)))

  feed_bytes-cons_stop :
      (feed_byte x p).0 ≡ false → feed_bytes (x ∷ text) p ≡ (false, (feed_byte x p).1)
  unfolding feed_bytes
  feed_bytes-cons_stop e =
      elim_both (λ (r : Bool × DoubaoTtsSseParser). r ≡ (false, (feed_byte x p).1))
        (feed_byte x p).0 (λ f. absurd (cc (e, f))) (λ _. refl)

feed-error_status : (b : Bytes) (p : DoubaoTtsSseParser) → is_error p ≡ true → feed b p ≡ (false, p)
unfolding feed
feed-error_status b p e = rw e refl

feed-live : (b : Bytes) (p : DoubaoTtsSseParser) → is_error p ≡ false → feed b p ≡ feed_bytes b p
unfolding feed
feed-live b p e = rw e refl

-- A text in two parts, on a parser without an error.
feed_bytes-append :
    (max : ℕ) (a b : Bytes) (p : DoubaoTtsSseParser)
    → Live max p
    → feed_bytes (a ++ b) p ≡ feed b (feed_bytes a p).1
unfolding feed_bytes
feed_bytes-append max [] b p h = sym (feed-live b p h.1)
feed_bytes-append max (x ∷ a) b p h =
    let next = feed_byte-Outcome max x p h in
    let q = (feed_byte x p).1 in
    elim (Bool-cases (feed_byte x p).0) [
      | inl e ↦
          feed_bytes-cons x (a ++ b) p e
          ∙ feed_bytes-append max a b q (Outcome-Live max (feed_byte x p) next e)
          ∙ sym (ap (λ (r : Bool × DoubaoTtsSseParser). feed b r.1) (feed_bytes-cons x a p e))
      | inr e ↦
          feed_bytes-cons_stop x (a ++ b) p e
          ∙ sym (feed-error_status b q (Outcome-Failed max (feed_byte x p) next e).1)
          ∙ sym (ap (λ (r : Bool × DoubaoTtsSseParser). feed b r.1) (feed_bytes-cons_stop x a p e))
    ]

feed-append :
    (max : ℕ) (a b : Bytes) (p : DoubaoTtsSseParser)
    → Ready max p
    → feed (a ++ b) p ≡ feed b (feed a p).1
feed-append max a b p h = elim (Bool-cases (is_error p)) [
  | inl e ↦
      feed-error_status (a ++ b) p e
      ∙ sym (feed-error_status b p e)
      ∙ sym (ap (λ (r : Bool × DoubaoTtsSseParser). feed b r.1) (feed-error_status a p e))
  | inr e ↦
      feed-live (a ++ b) p e
      ∙ feed_bytes-append max a b p (Ready-Live max h e)
      ∙ sym (ap (λ (r : Bool × DoubaoTtsSseParser). feed b r.1) (feed-live a p e))
]

-- The bytes of all chunks.
abbrev pub joined : List Bytes → Bytes
joined [] = []
joined (chunk ∷ chunks) = chunk ++ joined chunks

feed-nil : (p : DoubaoTtsSseParser) → (feed [] p).1 ≡ p
unfolding feed feed_bytes
feed-nil p = elim (Bool-cases (is_error p)) [ inl e ↦ rw e refl | inr e ↦ rw e refl ]

feed_all-eq :
    (max : ℕ) (chunks : List Bytes) (p : DoubaoTtsSseParser)
    → Ready max p
    → feed_all chunks p ≡ (feed (joined chunks) p).1
unfolding feed_all
feed_all-eq max [] p h = sym (feed-nil p)
feed_all-eq max (chunk ∷ chunks) p h =
    feed_all-eq max chunks (feed chunk p).1
      (Outcome-Ready max (feed chunk p) (feed-Outcome max chunk p h))
    ∙ sym (ap (λ (r : Bool × DoubaoTtsSseParser). r.1) (feed-append max chunk (joined chunks) p h))

-- The state of the parser depends on the bytes of the stream only, not on where the network cut it
-- into chunks: the chunks one after the other leave the state that one chunk of all their bytes
-- leaves. The bound of the parser fits a `size_t`.
pub feed_all-joined :
    (max : ℕ)
    → max < 2 ^ 32
    → (chunks : List Bytes)
    → feed_all chunks (new_parser max) ≡ (feed (joined chunks) (new_parser max)).1
feed_all-joined max small chunks =
    feed_all-eq max chunks (new_parser max) (new_parser-Ready max small)
