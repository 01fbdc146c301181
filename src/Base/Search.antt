-- ===== src/Base/Search.antt =====
-- `find_first_of`, `find` of a character and `rfind` of a character, as the index of a match.
use mathlib.Core.List.{append_assoc}
use qh_voice_kit.Base.{
  ◌≤◌, ap, sym, ◌∙◌, length-append, ◌&&◌, ◌==◌, ℕ, zero, suc, ◌<◌, ◌≡◌, refl, Bool, true, false,
  Option, none, some, [], ◌∷◌, ◌++◌, arith, if◌then◌else◌, length, take, drop, get_or, All,
}
use qh_voice_kit.Base.Bytes.{Bytes}

-- The index of the first character that passes the test.
unfoldable pub find_first : (ℕ → Bool) → Bytes → Option ℕ
find_first p [] = none
find_first p (c ∷ s) =
    let later = find_first p s in
    if p c then some 0 else (elim later [ none ↦ none | some i ↦ some (suc i) ])

-- The index of the last one.
unfoldable pub find_last : (ℕ → Bool) → Bytes → Option ℕ
find_last p [] = none
find_last p (c ∷ s) = elim (find_last p s) [
  | none ↦ if p c then some 0 else none
  | some i ↦ some (suc i)
]

-- No character passes the test.
abbrev pub None : (ℕ → Bool) → Bytes → Type 0
None p = All (λ c. p c ≡ false)

module _ (p : ℕ → Bool) where
  pub None-append : (a b : Bytes) → None p a → None p b → None p (a ++ b)
  None-append [] b ha hb = hb
  None-append (x ∷ a) b (h, ha) hb = (h, None-append a b ha hb)

  pub None-take : (n : ℕ) (s : Bytes) → None p s → None p (take n s)
  None-take zero s h = tt
  None-take (suc n) [] h = tt
  None-take (suc n) (c ∷ s) (hc, h) = (hc, None-take n s h)

  pub None-drop : (n : ℕ) (s : Bytes) → None p s → None p (drop n s)
  None-drop zero s h = h
  None-drop (suc n) [] h = tt
  None-drop (suc n) (c ∷ s) (hc, h) = None-drop n s h

  pub find_first-none : (s : Bytes) → find_first p s ≡ none → None p s
  unfolding find_first
  find_first-none [] h = tt
  find_first-none (c ∷ s) h = ground (arith, find_first-none s)

  pub None-find_first : (s : Bytes) → None p s → find_first p s ≡ none
  unfolding find_first
  None-find_first [] h = refl
  None-find_first (c ∷ s) (hc, h) = rw (hc, None-find_first s h)

  -- Before the match no character passes the test, and the match does.
  pub find_first-some :
      (s : Bytes) (i : ℕ)
      → find_first p s ≡ some i
      → None p (take i s) × (i < length s) × (p (get_or s i 0) ≡ true)
  unfolding find_first
  find_first-some [] i h = cc
  find_first-some (c ∷ s) zero h = ground (arith, find_first-some s 0)
  find_first-some (c ∷ s) (suc i) h = ground (arith, find_first-some s i)

  pub find_first-append :
      (a : Bytes) (c : ℕ) (b : Bytes)
      → None p a
      → p c ≡ true
      → find_first p (a ++ (c ∷ b)) ≡ some (length a)
  unfolding find_first
  find_first-append [] c b h hc = rw hc
  find_first-append (x ∷ a) c b (hx, h) hc = rw hx (rw (find_first-append a c b h hc))

  pub None-find_last : (s : Bytes) → None p s → find_last p s ≡ none
  unfolding find_last
  None-find_last [] h = refl
  None-find_last (c ∷ s) (hc, h) = rw (None-find_last s h, find_last) (rw hc)

  pub find_last-append :
      (a : Bytes) (c : ℕ) (b : Bytes)
      → None p b
      → p c ≡ true
      → find_last p (a ++ (c ∷ b)) ≡ some (length a)
  unfolding find_last
  find_last-append [] c b h hc = rw (None-find_last b h, find_last) (rw hc)
  find_last-append (x ∷ a) c b h hc = rw (find_last-append a c b h hc, find_last)

-- Whether a text begins with another, and the index of its first occurrence: `find`.
unfoldable pub begins_with : Bytes → Bytes → Bool
begins_with [] text = true
begins_with (n ∷ needle) [] = false
begins_with (n ∷ needle) (c ∷ text) = n == c && begins_with needle text

unfoldable pub find_text : Bytes → Bytes → Option ℕ
unfolding begins_with
find_text needle [] = if begins_with needle [] then some 0 else none
find_text needle (c ∷ text) =
    let later = find_text needle text in
    if begins_with needle (c ∷ text)
    then some 0
    else (elim later [ none ↦ none | some i ↦ some (suc i) ])

pub find_text-begins :
    (needle text : Bytes) → begins_with needle text ≡ true → find_text needle text ≡ some 0
unfolding find_text
find_text-begins needle [] h = rw h refl
find_text-begins needle (c ∷ text) h = rw h refl

begins_with_self : (a b : Bytes) → begins_with a (a ++ b) ≡ true
unfolding begins_with
begins_with_self [] b = refl
begins_with_self (c ∷ a) b = ground (arith, begins_with_self a b)

begins_with-append :
    (needle a b : Bytes)
    → length needle ≤ length a
    → begins_with needle (a ++ b) ≡ begins_with needle a
unfolding begins_with
begins_with-append [] a b h = refl
begins_with-append (n ∷ needle) [] b h = absurd (omega arith)
begins_with-append (n ∷ needle) (c ∷ a) b h =
    ap (λ t. (n == c) && t) (begins_with-append needle a b (omega arith))

not_begun :
    (needle : Bytes) (c : ℕ) (text : Bytes)
    → find_text needle (c ∷ text) ≡ none
    → (begins_with needle (c ∷ text) ≡ false) × (find_text needle text ≡ none)
unfolding find_text
not_begun needle c text h = ground arith

-- A text whose last character is `z` is found behind a text in which it does not start.
pub find_text-behind :
    (a : Bytes) (z : ℕ) (head rest : Bytes)
    → find_text (a ++ (z ∷ [])) (head ++ a) ≡ none
    → find_text (a ++ (z ∷ [])) (head ++ (a ++ (z ∷ rest))) ≡ some (length head)
unfolding find_text
find_text-behind a z [] rest h = find_text-begins (a ++ (z ∷ [])) (a ++ (z ∷ rest)) (
    ap (begins_with (a ++ (z ∷ []))) (sym (append_assoc a (z ∷ []) rest))
    ∙ begins_with_self (a ++ (z ∷ [])) rest)
find_text-behind a z (c ∷ head) rest h =
    let (absent, later) = not_begun (a ++ (z ∷ [])) c (head ++ a) h in
    let unbegun : begins_with (a ++ (z ∷ [])) (c ∷ (head ++ (a ++ (z ∷ rest)))) ≡ false =
      ap (λ t. begins_with (a ++ (z ∷ [])) (c ∷ t)) (sym (append_assoc head a (z ∷ rest)))
      ∙ begins_with-append (a ++ (z ∷ [])) (c ∷ (head ++ a)) (z ∷ rest)
          (omega (arith, length-append a (z ∷ []), length-append head a))
      ∙ absent in
    rw (unbegun, find_text-behind a z head rest later) refl
