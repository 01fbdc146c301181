-- ===== src/Endpoint.antt =====
-- firmware/esp32_voice_kit/secure_endpoint.h: `parseSecureEndpoint`. A position is the index of a
-- search, and `npos` is `none`. Children: what an accepted endpoint is, and how one is read back.
pub mod Safe
pub mod RoundTrip
use qh_voice_kit.Base.{
  ℕ, ◌+◌, ◌-◌, ◌*◌, Bool, true, false, not, ◌&&◌, ◌||◌, Option, none, some, [], ◌∷◌, ◌++◌, leb, ltb,
  ◌==◌, if◌then◌else◌, length, take, drop,
}
use qh_voice_kit.Base.Bytes.{Bytes, bytes_eq, is_empty}
use qh_voice_kit.Base.Search.{find_first, find_last}
use qh_voice_kit.Base.Words.{u16, u32}

pub record SecureEndpoint : Type 0 where
  pub host : Bytes
  pub port : ℕ
  pub path : Bytes

-- `find_first_of("\r\n\t #")`, `find_first_of("/?")` and `std::isdigit`.
abbrev pub is_forbidden : ℕ → Bool
is_forbidden c = c == b'\r' || c == b'\n' || c == b'\t' || c == b' ' || c == b'#'

abbrev pub is_path_start : ℕ → Bool
is_path_start c = c == b'/' || c == b'?'

abbrev pub is_at : ℕ → Bool
is_at c = c == b'@'

abbrev pub is_colon : ℕ → Bool
is_colon c = c == b':'

abbrev pub is_digit : ℕ → Bool
is_digit c = leb b'0' c && leb c b'9'

-- `front() == c`, on a text that the caller may know to be empty.
abbrev pub starts_with : ℕ → Bytes → Bool
starts_with c [] = false
starts_with c (x ∷ _) = x == c

-- The loop over `port_text`, from `parsed_port` on.
unfoldable pub parse_port : ℕ → Bytes → Option ℕ
parse_port parsed_port [] = some parsed_port
parse_port parsed_port (c ∷ text) =
    let parsed = u32 (parsed_port * 10 + (c - b'0')) in
    let rest = parse_port parsed text in
    if not (is_digit c) then none else if ltb 65535 parsed then none else rest

-- The host and port of an authority, from the place of its last colon.
unfoldable pub split_authority : Bytes → Option ℕ → ℕ → Option (Bytes × ℕ)
split_authority authority none default_port = some (authority, default_port)
split_authority authority (some colon) default_port =
    let host = take colon authority in
    let port_text = drop (colon + 1) authority in
    if is_empty host || is_empty port_text then none else elim (parse_port 0 port_text) [
      | none ↦ none
      | some parsed_port ↦ if parsed_port == 0 then none else some (host, u16 parsed_port)
    ]

-- What stands behind the scheme, split at `path_start`.
abbrev pub authority_of : Bytes → Option ℕ → Bytes
authority_of tail none = tail
authority_of tail (some start) = take start tail

abbrev pub path_of : Bytes → Option ℕ → Bytes
path_of tail none = b'/' ∷ []
path_of tail (some start) =
    let path = drop start tail in if starts_with b'?' path then b'/' ∷ path else path

unfoldable pub finish_endpoint : Option (Bytes × ℕ) → Bytes → Option SecureEndpoint
finish_endpoint none path = none
finish_endpoint (some (host, port)) path =
    if is_empty host then none else some (record { host = host; port = port; path = path })

unfoldable pub parse_secure_endpoint : Bytes → Bytes → ℕ → Option SecureEndpoint
parse_secure_endpoint endpoint scheme default_port =
    if leb (length endpoint) (length scheme)
      || not (bytes_eq (take (length scheme) endpoint) scheme)
      || not (elim (find_first is_forbidden endpoint) [ none ↦ true | some _ ↦ false ])
    then none
    else let tail = drop (length scheme) endpoint in
      let path_start = find_first is_path_start tail in
      let authority = authority_of tail path_start in
      if is_empty authority
        || not (elim (find_first is_at authority) [ none ↦ true | some _ ↦ false ])
        || starts_with b'[' authority
      then none
      else finish_endpoint (split_authority authority (find_last is_colon authority) default_port)
          (path_of tail path_start)
