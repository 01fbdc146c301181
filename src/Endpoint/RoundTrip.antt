-- ===== src/Endpoint/RoundTrip.antt =====
-- secure_endpoint.h: an endpoint that is written out is read back.
use qh_voice_kit.Base.{
  ℕ, zero, suc, ◌+◌, ◌-◌, ◌*◌, ◌/◌, ◌%◌, ◌^◌, ◌≤◌, ◌<◌, Bool, true, false, some, [], ◌∷◌, ◌++◌, ◌≡◌,
  ◌≢◌, refl, ◌∙◌, arith, leb, ltb, length, length-append, take, drop, take-append, drop-append,
  drop-append_cons, Bool-cases, inl, inr,
}
use qh_voice_kit.Base.Bytes.{Bytes, bytes_eq, bytes_eq_iff, is_empty}
use qh_voice_kit.Base.Decimal.{to_decimal, to_decimal-is_empty, digits_onto, digits_onto-All}
use qh_voice_kit.Base.Search.{
  find_first, find_last, None, None-append, None-find_first, find_first-append, find_last-append,
}
use qh_voice_kit.Endpoint.{
  SecureEndpoint, is_forbidden, is_path_start, is_at, is_colon, starts_with, parse_port,
  split_authority, authority_of, path_of, finish_endpoint, parse_secure_endpoint,
}
use qh_voice_kit.Endpoint.Safe.{IsSafe}

parse_port_digit :
    (m d n : ℕ) (text : Bytes)
    → d < 10
    → n ≡ m * 10 + d
    → n ≤ 65535
    → parse_port m ((d + b'0') ∷ text) ≡ parse_port n text
unfolding parse_port
parse_port_digit m d n text hd e hn =
    let next : (m * 10 + (d + b'0' - b'0')) % 2 ^ 32 ≡ n = omega arith in rw next (ground arith)

parse_port-digits :
    (fuel n : ℕ) (text : Bytes)
    → n < fuel
    → n ≤ 65535
    → parse_port 0 (digits_onto fuel n text) ≡ parse_port n text
unfolding digits_onto
parse_port-digits zero n text hf hn = absurd (omega arith)
parse_port-digits (suc fuel) n text hf hn = elim (Bool-cases (ltb n 10)) [
  | inl small ↦ rw small (parse_port_digit 0 n n text (ground arith) (omega arith) hn)
  | inr large ↦ rw large (
      parse_port-digits fuel (n / 10) ((n % 10 + b'0') ∷ text) (ground arith) (omega arith)
      ∙ parse_port_digit (n / 10) (n % 10) n text (omega arith) (omega arith) hn)
]

parse_port-to_decimal : (n : ℕ) → n ≤ 65535 → parse_port 0 (to_decimal n) ≡ some n
unfolding to_decimal
parse_port-to_decimal n h =
    parse_port-digits (suc n) n [] (omega arith) h ∙ unfold parse_port in refl

-- A test that no digit passes, no decimal passes.
None-to_decimal :
    (p : ℕ → Bool) (n : ℕ) → ((d : ℕ) → d < 10 → p (d + b'0') ≡ false) → None p (to_decimal n)
unfolding to_decimal
None-to_decimal p n h = digits_onto-All (λ c. p c ≡ false) (suc n) n [] h tt

-- An endpoint as text, with its port written out.
pub render_tail : SecureEndpoint → Bytes
render_tail e = (e.host ++ (b':' ∷ to_decimal e.port)) ++ e.path

pub render : Bytes → SecureEndpoint → Bytes
render scheme e = scheme ++ render_tail e

nonempty : (s : Bytes) → s ≢ [] → is_empty s ≡ false
nonempty s h = ground arith

split_authority-render :
    (host : Bytes) (port d : ℕ)
    → host ≢ []
    → 1 ≤ port
    → port ≤ 65535
    → let authority = host ++ (b':' ∷ to_decimal port) in
      split_authority authority (find_last is_colon authority) d ≡ some (host, port)
unfolding split_authority
split_authority-render host port d ne lo hi =
    rw
      (find_last-append is_colon host b':' (to_decimal port)
        (None-to_decimal is_colon port (λ x h. ground arith)) refl)
      (rw (take-append host (b':' ∷ to_decimal port), drop-append_cons host b':' (to_decimal port))
        (rw (to_decimal-is_empty port, parse_port-to_decimal port hi)
          (ground (arith, nonempty host ne, take-append host (b':' ∷ to_decimal port)))))

-- A path that begins with a slash is where the search for one stops.
path_found :
    (a path : Bytes)
    → None is_path_start a
    → starts_with b'/' path ≡ true
    → find_first is_path_start (a ++ path) ≡ some (length a)
path_found a (c ∷ path) h s = find_first-append is_path_start a c path h (ground arith)
path_found a [] h s = cc

path_of-slash :
    (a path : Bytes) → starts_with b'/' path ≡ true → path_of (a ++ path) (some (length a)) ≡ path
path_of-slash a path s = rw (drop-append a path) (ground arith)

bytes_eq_refl : (a : Bytes) → bytes_eq a a ≡ true
bytes_eq_refl a = (bytes_eq_iff a a).1 refl

starts_with-append :
    (c : ℕ) (a b : Bytes)
    → a ≢ []
    → starts_with c a ≡ false
    → (starts_with c (a ++ b) ≡ false) × (is_empty (a ++ b) ≡ false)
starts_with-append c [] b ne h = absurd (ne refl)
starts_with-append c (x ∷ a) b ne h = (h, refl)

module _ (e : SecureEndpoint) (safe : IsSafe e) where
  abbrev authority : Bytes
  authority = e.host ++ (b':' ∷ to_decimal e.port)

  None-authority :
      (p : ℕ → Bool)
      → None p e.host
      → p b':' ≡ false
      → ((d : ℕ) → d < 10 → p (d + b'0') ≡ false)
      → None p authority
  None-authority p h c d =
      None-append p e.host (b':' ∷ to_decimal e.port) h (c, None-to_decimal p e.port d)

  render_clean : (scheme : Bytes) → None is_forbidden scheme → None is_forbidden (render scheme e)
  unfolding render render_tail
  render_clean scheme h = None-append is_forbidden scheme (render_tail e) h (
      None-append is_forbidden authority e.path
        (None-authority is_forbidden safe.host_clean refl (λ d lt. ground arith)) safe.path_clean)

  found : find_first is_path_start (render_tail e) ≡ some (length authority)
  unfolding render_tail
  found =
      path_found authority e.path
        (None-authority is_path_start safe.host_ends refl (λ d lt. ground arith)) safe.path_absolute

  authority_found :
      authority_of (render_tail e) (find_first is_path_start (render_tail e)) ≡ authority
  authority_found = rw found (unfold render_tail in take-append authority e.path)

  path_found_again : path_of (render_tail e) (find_first is_path_start (render_tail e)) ≡ e.path
  path_found_again =
      rw found (unfold render_tail in path_of-slash authority e.path safe.path_absolute)

  length-render : (scheme : Bytes) → leb (length (render scheme e)) (length scheme) ≡ false
  unfolding render render_tail
  length-render scheme = ground (
    arith,
    length-append scheme (authority ++ e.path),
    length-append authority e.path,
    length-append e.host (b':' ∷ to_decimal e.port),
  )

  take-render : (scheme : Bytes) → take (length scheme) (render scheme e) ≡ scheme
  unfolding render
  take-render scheme = take-append scheme (render_tail e)

  drop-render : (scheme : Bytes) → drop (length scheme) (render scheme e) ≡ render_tail e
  unfolding render
  drop-render scheme = drop-append scheme (render_tail e)

  -- A safe endpoint, written out behind its scheme with its port, is read back as it was, whatever
  -- the default port. The scheme holds no forbidden character.
  pub parse_secure_endpoint-render :
      (scheme : Bytes) (default_port : ℕ)
      → None is_forbidden scheme
      → parse_secure_endpoint (render scheme e) scheme default_port ≡ some e
  unfolding parse_secure_endpoint finish_endpoint
  parse_secure_endpoint-render scheme d h =
      let (bare, full) =
        starts_with-append b'[' e.host (b':' ∷ to_decimal e.port) safe.host_ne_nil safe.host_bare in
      let alone =
        None-find_first is_at authority
          (None-authority is_at safe.host_alone refl (λ x lt. ground arith)) in
      let clean = None-find_first is_forbidden (render scheme e) (render_clean scheme h) in
      rw (length-render scheme, take-render scheme, drop-render scheme)
        (rw (bytes_eq_refl scheme, clean, authority_found, path_found_again)
          (rw (alone, bare, full)
            (rw (split_authority-render e.host e.port d safe.host_ne_nil safe.port_pos safe.port_le)
              (rw (nonempty e.host safe.host_ne_nil)))))
