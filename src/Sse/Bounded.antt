-- ===== src/Sse/Bounded.antt =====
-- doubao_tts_sse.h: the bound on the audio of the parser, and what an error leaves of it.
use qh_voice_kit.Base.{ℕ, ◌^◌, ◌≤◌, ◌<◌, ◌≡◌, refl, Bool, true, false, List, [], ◌∷◌, arith, length}
use qh_voice_kit.Base.Bytes.{Bytes}
use qh_voice_kit.Sse.{DoubaoTtsSseParser, new_parser, is_error, feed, finish}
use qh_voice_kit.Sse.Outcome.{
  Ready, live, failed, Outcome, Outcome-Ready, feed-Outcome, finish-Outcome,
}

-- The chunks of a stream, fed one after the other.
unfoldable pub feed_all : List Bytes → DoubaoTtsSseParser → DoubaoTtsSseParser
feed_all [] p = p
feed_all (chunk ∷ chunks) p = feed_all chunks (feed chunk p).1

pub feed_all-Ready :
    (max : ℕ) (chunks : List Bytes) (p : DoubaoTtsSseParser)
    → Ready max p
    → Ready max (feed_all chunks p)
unfolding feed_all
feed_all-Ready max [] p h = h
feed_all-Ready max (chunk ∷ chunks) p h =
    feed_all-Ready max chunks (feed chunk p).1
      (Outcome-Ready max (feed chunk p) (feed-Outcome max chunk p h))

pub new_parser-Ready : (max : ℕ) → max < 2 ^ 32 → Ready max (new_parser max)
new_parser-Ready max h = live ((refl, omega arith, h), refl)

module _ (max : ℕ) (small : max < 2 ^ 32) (chunks : List Bytes) where
  Ready-received : Ready max (feed_all chunks (new_parser max))
  Ready-received = feed_all-Ready max chunks (new_parser max) (new_parser-Ready max small)

pub Ready-length : (max : ℕ) (p : DoubaoTtsSseParser) → Ready max p → length p.audio ≤ max
Ready-length max p (live h) = h.0.1
Ready-length max p (failed h) = h.0.1

-- Whatever bytes a new parser is fed, in whatever chunks, it never holds more audio than its bound
-- (which fits a `size_t`), neither while the stream runs nor after its end.
pub length-feed_all :
    (max : ℕ)
    → max < 2 ^ 32
    → (chunks : List Bytes)
    → (length (feed_all chunks (new_parser max)).audio ≤ max)
      × (length (finish (feed_all chunks (new_parser max))).1.audio ≤ max)
length-feed_all max small chunks =
    let p = feed_all chunks (new_parser max) in
    let ready = Ready-received max small chunks in
    (
      Ready-length max p ready,
      Ready-length max (finish p).1 (Outcome-Ready max (finish p) (finish-Outcome max p ready)),
    )

Outcome-Failed :
    (max : ℕ) (r : Bool × DoubaoTtsSseParser)
    → Outcome max r
    → r.0 ≡ false
    → (is_error r.1 ≡ true) × (r.1.audio ≡ [])
Outcome-Failed max (true, p) h e = absurd (cc e)
Outcome-Failed max (false, p) h e = (h.1, h.2)

absorbs :
    (p : DoubaoTtsSseParser) (chunk : Bytes)
    → is_error p ≡ true
    → (feed chunk p ≡ (false, p)) × (finish p ≡ (false, p))
unfolding feed finish
absorbs p chunk e = (rw e refl, rw e refl)

-- The error path of the parser. When `feed` returns false, at any point of any stream, the parser is
-- in an error status and has dropped all audio, and every later `feed` and `finish` returns false
-- and changes nothing.
pub feed-error :
    (max : ℕ)
    → max < 2 ^ 32
    → (chunks : List Bytes) (chunk later : Bytes)
    → (feed chunk (feed_all chunks (new_parser max))).0 ≡ false
    → (is_error (feed chunk (feed_all chunks (new_parser max))).1 ≡ true)
      × ((feed chunk (feed_all chunks (new_parser max))).1.audio ≡ [])
      × (feed later (feed chunk (feed_all chunks (new_parser max))).1
          ≡ (false, (feed chunk (feed_all chunks (new_parser max))).1))
      × (finish (feed chunk (feed_all chunks (new_parser max))).1
          ≡ (false, (feed chunk (feed_all chunks (new_parser max))).1))
feed-error max small chunks chunk later e =
    let p = feed_all chunks (new_parser max) in
    let r = feed chunk p in
    let end = Outcome-Failed max r (feed-Outcome max chunk p (Ready-received max small chunks)) e in
    (end.0, end.1, (absorbs r.1 later end.0).0, (absorbs r.1 later end.0).1)
