-- ===== src/Provider/Redaction.antt =====
-- provider_request.h and websocket_disconnect_diagnostic.h: what is shown of a request and of a
-- reason that came from outside.
use qh_voice_kit.Base.{List, [], ◌∷◌, if◌then◌else◌, Bool, true, false}
use qh_voice_kit.Base.Bytes.{Bytes, codes}
use qh_voice_kit.Provider.{
  WebSocketDisconnectHint, none, server_close, frame_too_large, frame_receive_failed,
  code_of_reason, safe_web_socket_disconnect_code,
}

-- Membership in a list of texts.
pub data OneOf (code : Bytes) : List Bytes → Type 0 where
  here : {more : List Bytes} → OneOf code (code ∷ more)
  later : {other : Bytes} {more : List Bytes} → OneOf code more → OneOf code (other ∷ more)

abbrev pub reason_codes : List Bytes
reason_codes =
    codes "connection_lost"
    ∷ codes "tcp_cleanup"
    ∷ codes "handshake_timeout"
    ∷ codes "handshake_http"
    ∷ codes "handshake_failed"
    ∷ codes "unknown_disconnect"
    ∷ []

abbrev pub disconnect_codes : List Bytes
disconnect_codes =
    codes "server_close" ∷ codes "frame_too_large" ∷ codes "frame_receive_failed" ∷ reason_codes

-- A property of both branches.
either : {A : Type 0} (P : A → Type 0) (b : Bool) {x y : A} → P x → P y → P (if b then x else y)
either P true hx hy = hx
either P false hx hy = hy

code_of_reason-OneOf : (reason : Bytes) → OneOf (code_of_reason reason) reason_codes
unfolding code_of_reason
code_of_reason-OneOf reason =
    let Known = λ (c : Bytes). OneOf c reason_codes in
    either Known _ here (
      either Known _ (later here) (
        either Known _ (later (later here)) (
          either Known _ (later (later (later here))) (
            either Known _ (later (later (later (later here))))
              (later (later (later (later (later here)))))))))

-- Whatever reason the library or a server gives, the shown code is one of nine fixed texts.
pub safe_web_socket_disconnect_code-OneOf :
    (hint : WebSocketDisconnectHint) (reason : Bytes)
    → OneOf (safe_web_socket_disconnect_code hint reason) disconnect_codes
unfolding safe_web_socket_disconnect_code
safe_web_socket_disconnect_code-OneOf server_close reason = here
safe_web_socket_disconnect_code-OneOf frame_too_large reason = later here
safe_web_socket_disconnect_code-OneOf frame_receive_failed reason = later (later here)
safe_web_socket_disconnect_code-OneOf none reason =
    later (later (later (code_of_reason-OneOf reason)))
