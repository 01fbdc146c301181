-- ===== src/Provider.antt =====
-- firmware/esp32_voice_kit/provider_request.h and websocket_disconnect_diagnostic.h: the requests
-- to the providers, and the codes shown for a lost connection.
pub mod Redaction
use qh_voice_kit.Base.{ℕ, Bool, not, ◌&&◌, ◌||◌, List, [], ◌∷◌, ◌++◌, ltb, if◌then◌else◌, length}
use qh_voice_kit.Base.Bytes.{Bytes, codes, bytes_eq}
use qh_voice_kit.Base.Decimal.{to_decimal}
use qh_voice_kit.Base.Search.{begins_with}

pub record HeaderValue : Type 0 where
  pub name : Bytes
  pub value : Bytes

pub record ProviderTransportRequest : Type 0 where
  pub endpoint : Bytes
  pub headers : List HeaderValue

abbrev pub header_line : HeaderValue → Bytes
header_line h = h.name ++ (codes ": " ++ h.value)

unfoldable pub format_web_socket_extra_headers : List HeaderValue → Bytes
format_web_socket_extra_headers [] = []
format_web_socket_extra_headers (h ∷ []) = header_line h
format_web_socket_extra_headers (h ∷ more) =
    header_line h ++ (codes "\r\n" ++ format_web_socket_extra_headers more)

abbrev header : Bytes → Bytes → HeaderValue
header name value = record { name = name; value = value }

unfoldable pub build_doubao_asr_transport_request :
    Bytes → Bytes → Bytes → Bytes → ProviderTransportRequest
build_doubao_asr_transport_request endpoint api_key resource_id request_id = record {
  endpoint = endpoint;
  headers =
      header (codes "X-Api-Key") api_key
      ∷ header (codes "X-Api-Resource-Id") resource_id
      ∷ header (codes "X-Api-Connect-Id") request_id
      ∷ [];
}

unfoldable pub build_openai_reply_transport_request : Bytes → Bytes → ProviderTransportRequest
build_openai_reply_transport_request endpoint credential = record {
  endpoint = endpoint;
  headers =
      header (codes "Authorization") (codes "Bearer " ++ credential)
      ∷ header (codes "Content-Type") (codes "application/json")
      ∷ [];
}

unfoldable pub build_doubao_tts_transport_request :
    Bytes → Bytes → Bytes → Bytes → ProviderTransportRequest
build_doubao_tts_transport_request endpoint credential resource_id request_id = record {
  endpoint = endpoint;
  headers =
      header (codes "X-Api-Key") credential
      ∷ header (codes "X-Api-Resource-Id") resource_id
      ∷ header (codes "X-Api-Request-Id") request_id
      ∷ header (codes "Accept") (codes "text/event-stream")
      ∷ header (codes "Content-Type") (codes "application/json")
      ∷ [];
}

unfoldable pub redacted_transport_summary : Bytes → ProviderTransportRequest → Bytes
redacted_transport_summary provider request =
    codes "provider="
    ++ (provider
        ++ (codes " endpoint="
            ++ (request.endpoint ++ (codes " headers=" ++ to_decimal (length request.headers)))))

pub data WebSocketDisconnectHint : Type 0 where
  none server_close frame_too_large frame_receive_failed : WebSocketDisconnectHint

unfoldable pub infer_web_socket_disconnect_hint : Bool → Bool → ℕ → ℕ → WebSocketDisconnectHint
infer_web_socket_disconnect_hint frame_active close_frame payload_size maximum_payload_size =
    if not frame_active
    then none
    else if close_frame
    then server_close
    else if ltb maximum_payload_size payload_size
    then frame_too_large
    else frame_receive_failed

unfoldable pub code_of_reason : Bytes → Bytes
code_of_reason reason =
    if bytes_eq reason (codes "Connection lost")
    then codes "connection_lost"
    else if bytes_eq reason (codes "TCP connection cleanup")
    then codes "tcp_cleanup"
    else if bytes_eq reason (codes "Header response timeout")
    then codes "handshake_timeout"
    else if begins_with (codes "HTTP ") reason
        || begins_with (codes "WebSocket handshake failed - HTTP ") reason
    then codes "handshake_http"
    else if bytes_eq reason (codes "WebSocket handshake failed")
    then codes "handshake_failed"
    else codes "unknown_disconnect"

unfoldable pub safe_web_socket_disconnect_code : WebSocketDisconnectHint → Bytes → Bytes
safe_web_socket_disconnect_code server_close reason = codes "server_close"
safe_web_socket_disconnect_code frame_too_large reason = codes "frame_too_large"
safe_web_socket_disconnect_code frame_receive_failed reason = codes "frame_receive_failed"
safe_web_socket_disconnect_code none reason = code_of_reason reason
