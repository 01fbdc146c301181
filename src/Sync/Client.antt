-- ===== src/Sync/Client.antt =====
-- The platform's HTTPClient as qh_sync_transport.h and provider_http_transport.h use it: a state and
-- the calls that change it. Time limits and the bundle of certificates are settings of the library.
use qh_voice_kit.Base.{Bool, List}
use qh_voice_kit.Base.Bytes.{Bytes}
use qh_voice_kit.Base.Integers.{ℤ}
use qh_voice_kit.Provider.{HeaderValue}

-- `post` is `addHeader` of each header and `POST` of the body, with the status it returns.
pub record HttpClient (S : Type 0) : Type 0 where
  pub begin : Bytes → S → Bool × S
  pub post : List HeaderValue → Bytes → S → ℤ × S
  pub get_string : S → Bytes × S
  pub end : S → S
