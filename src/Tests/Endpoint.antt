-- ===== src/Tests/Endpoint.antt =====
-- secure_endpoint.h at concrete endpoints.
use qh_voice_kit.Base.{◌≡◌, refl, none, some, arith}
use qh_voice_kit.Base.Bytes.{codes, bytes_eq}
use qh_voice_kit.Base.Search.{find_first, find_last}
use qh_voice_kit.Endpoint.{
  SecureEndpoint, parse_secure_endpoint, parse_port, split_authority, finish_endpoint,
}
use qh_voice_kit.Endpoint.RoundTrip.{render, parse_secure_endpoint-render}
use qh_voice_kit.Endpoint.Safe.{IsSafe, parse_secure_endpoint-IsSafe}

abbrev sync : SecureEndpoint
sync = record { host = codes "qh.example"; port = 8443; path = codes "/v1?x=1" }

parses :
    parse_secure_endpoint (codes "https://qh.example:8443/v1?x=1") (codes "https://") 443
    ≡ some sync
unfolding parse_secure_endpoint find_first find_last bytes_eq parse_port split_authority
    finish_endpoint
parses = refl

refuses :
    (parse_secure_endpoint (codes "https://user@host/") (codes "https://") 443 ≡ none)
    × (parse_secure_endpoint (codes "https://host:0/") (codes "https://") 443 ≡ none)
    × (parse_secure_endpoint (codes "https://host:65536/") (codes "https://") 443 ≡ none)
unfolding parse_secure_endpoint find_first find_last bytes_eq parse_port split_authority
    finish_endpoint
refuses = (refl, refl, refl)

parse_secure_endpoint-IsSafe_example : IsSafe sync
parse_secure_endpoint-IsSafe_example =
    parse_secure_endpoint-IsSafe (codes "https://qh.example:8443/v1?x=1") (codes "https://") 443
      (omega arith) (omega arith) parses

parse_secure_endpoint-render_example :
    parse_secure_endpoint (render (codes "wss://") sync) (codes "wss://") 443 ≡ some sync
parse_secure_endpoint-render_example =
    parse_secure_endpoint-render sync parse_secure_endpoint-IsSafe_example (codes "wss://") 443
      (refl, (refl, (refl, (refl, (refl, (refl, tt))))))
