-- ===== src/Endpoint/Safe.antt =====
-- secure_endpoint.h: what `parseSecureEndpoint` guarantees of an endpoint that it accepts.
use qh_voice_kit.Base.{
  ℕ, zero, suc, ◌+◌, ◌-◌, ◌*◌, ◌%◌, ◌^◌, ◌≤◌, Bool, true, false, Option, none, some, [], ◌∷◌, ◌≡◌,
  refl, ◌≢◌, ◌⊎◌, arith, if◌then◌else◌, length, take, drop, drop-eq-cons, get_or, Option-cases, inl,
  inr,
}
use qh_voice_kit.Base.Bytes.{Bytes, is_empty}
use qh_voice_kit.Base.Search.{
  find_first, find_last, None, None-take, None-drop, find_first-none, find_first-some,
}
use qh_voice_kit.Endpoint.{
  SecureEndpoint, is_forbidden, is_path_start, is_at, is_colon, starts_with, parse_port,
  split_authority, authority_of, path_of, finish_endpoint, parse_secure_endpoint,
}

-- An endpoint that cannot smuggle a line break or a blank into a request, or credentials into its
-- host, whose port is one of TCP and whose path is absolute.
pub record IsSafe (e : SecureEndpoint) : Type 0 where
  pub host_ne_nil : e.host ≢ []
  pub host_clean : None is_forbidden e.host
  pub host_ends : None is_path_start e.host
  pub host_alone : None is_at e.host
  pub host_bare : starts_with b'[' e.host ≡ false
  pub port_pos : 1 ≤ e.port
  pub port_le : e.port ≤ 65535
  pub path_absolute : starts_with b'/' e.path ≡ true
  pub path_clean : None is_forbidden e.path

parse_port-le : (text : Bytes) (n p : ℕ) → n ≤ 65535 → parse_port n text ≡ some p → p ≤ 65535
unfolding parse_port
parse_port-le [] n p hn h = ground arith
parse_port-le (c ∷ text) n p hn h =
    ground (arith, parse_port-le text ((n * 10 + (c - b'0')) % 2 ^ 32) p)

module _ (p : ℕ → Bool) where
  None-authority :
      (tail : Bytes) (start : Option ℕ) → None p tail → None p (authority_of tail start)
  None-authority tail none h = h
  None-authority tail (some start) h = None-take p start tail h

authority_ends :
    (tail : Bytes) (o : Option ℕ)
    → find_first is_path_start tail ≡ o
    → None is_path_start (authority_of tail o)
authority_ends tail none h = find_first-none is_path_start tail h
authority_ends tail (some i) h = (find_first-some is_path_start tail i h).0

absolute_from :
    (c : ℕ) (rest : Bytes)
    → is_path_start c ≡ true
    → let path = c ∷ rest in
      starts_with b'/' (if starts_with b'?' path then b'/' ∷ path else path) ≡ true
absolute_from c rest h = ground arith

path_of-absolute :
    (tail : Bytes) (o : Option ℕ)
    → find_first is_path_start tail ≡ o
    → starts_with b'/' (path_of tail o) ≡ true
path_of-absolute tail none h = refl
path_of-absolute tail (some i) h =
    let (_, inside, match) = find_first-some is_path_start tail i h in
    rw (drop-eq-cons tail i 0 inside) (absolute_from (get_or tail i 0) (drop (suc i) tail) match)

None-if :
    (b : Bool) (s : Bytes) → None is_forbidden s → None is_forbidden (if b then b'/' ∷ s else s)
None-if true s h = (refl, h)
None-if false s h = h

path_of-clean :
    (tail : Bytes) (o : Option ℕ) → None is_forbidden tail → None is_forbidden (path_of tail o)
path_of-clean tail none h = (refl, tt)
path_of-clean tail (some i) h = None-if _ _ (None-drop is_forbidden i tail h)

-- The host is a part of the authority, and the port is the default or one that the loop has bounded.
split_authority-inv :
    (authority : Bytes) (o : Option ℕ) (d : ℕ) {host : Bytes} {port : ℕ}
    → split_authority authority o d ≡ some (host, port)
    → ((host ≡ authority) × (port ≡ d))
      ⊎ ((i p : ℕ) × (host ≡ take i authority)
          × (parse_port 0 (drop (i + 1) authority) ≡ some p)
          × (1 ≤ p)
          × (port ≡ p % 2 ^ 16))
unfolding split_authority
split_authority-inv authority none d h = inl (ground arith, ground arith)
split_authority-inv authority (some i) d {host} {port} h =
    elim (Option-cases (parse_port 0 (drop (i + 1) authority))) [
      | inl e ↦ absurd (ground arith)
      | inr (p, e) ↦ inr (i, p, ground arith, e, ground arith, ground arith)
    ]

starts_with-take :
    (c i : ℕ) (s : Bytes) → starts_with c s ≡ false → starts_with c (take i s) ≡ false
starts_with-take c zero s h = refl
starts_with-take c (suc i) [] h = refl
starts_with-take c (suc i) (x ∷ s) h = h

record IsSplit (authority host : Bytes) (port : ℕ) : Type 0 where
  part : (p : ℕ → Bool) → None p authority → None p host
  front : (c : ℕ) → starts_with c authority ≡ false → starts_with c host ≡ false
  pos : 1 ≤ port
  bounded : port ≤ 65535

split_authority-IsSplit :
    (authority : Bytes) (o : Option ℕ) (d : ℕ) {host : Bytes} {port : ℕ}
    → 1 ≤ d
    → d ≤ 65535
    → split_authority authority o d ≡ some (host, port)
    → IsSplit authority host port
split_authority-IsSplit authority o d lo hi h = elim (split_authority-inv authority o d h) [
  | inl (eh, ep) ↦ record {
    part = λ p a. rw eh a;
    front = λ c a. rw eh a;
    pos = omega arith;
    bounded = omega arith;
  }
  | inr (i, p, eh, e, pos, ep) ↦ record {
    part = λ q a. rw eh (None-take q i authority a);
    front = λ c a. rw eh (starts_with-take c i authority a);
    pos = omega (arith, parse_port-le _ 0 p (omega arith) e);
    bounded = omega arith;
  }
]

-- What the tests of the parser have established when it returns an endpoint.
parse_secure_endpoint-inv :
    (endpoint scheme : Bytes) (d : ℕ) {e : SecureEndpoint}
    → parse_secure_endpoint endpoint scheme d ≡ some e
    → let tail = drop (length scheme) endpoint in
      let start = find_first is_path_start tail in
      let authority = authority_of tail start in
      (find_first is_forbidden endpoint ≡ none)
      × (find_first is_at authority ≡ none)
      × (starts_with b'[' authority ≡ false)
      × (is_empty e.host ≡ false)
      × (e.path ≡ path_of tail start)
      × (split_authority authority (find_last is_colon authority) d ≡ some (e.host, e.port))
unfolding parse_secure_endpoint finish_endpoint
parse_secure_endpoint-inv endpoint scheme d h = ground arith

nonempty : (s : Bytes) → is_empty s ≡ false → s ≢ []
nonempty s h = ground arith

-- Whatever endpoint is accepted is safe, if the default port is one of TCP.
pub parse_secure_endpoint-IsSafe :
    (endpoint scheme : Bytes) (default_port : ℕ) {e : SecureEndpoint}
    → 1 ≤ default_port
    → default_port ≤ 65535
    → parse_secure_endpoint endpoint scheme default_port ≡ some e
    → IsSafe e
parse_secure_endpoint-IsSafe endpoint scheme d {e} lo hi h =
    let (clean, alone, bare, full, ep, split) = parse_secure_endpoint-inv endpoint scheme d h in
    let tail = drop (length scheme) endpoint in
    let start = find_first is_path_start tail in
    let tail_clean =
      None-drop is_forbidden (length scheme) endpoint
        (find_first-none is_forbidden endpoint clean) in
    let parts = split_authority-IsSplit (authority_of tail start) _ d lo hi split in
    record {
      host_ne_nil = nonempty e.host full;
      host_clean = parts.part is_forbidden (None-authority is_forbidden tail start tail_clean);
      host_ends = parts.part is_path_start (authority_ends tail start refl);
      host_alone = parts.part is_at (find_first-none is_at (authority_of tail start) alone);
      host_bare = parts.front b'[' bare;
      port_pos = parts.pos;
      port_le = parts.bounded;
      path_absolute = rw ep (path_of-absolute tail start refl);
      path_clean = rw ep (path_of-clean tail start tail_clean);
    }
