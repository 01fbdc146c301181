-- ===== src/Asr/Transport/Failed.antt =====
-- doubao_asr_transport.h: the failure that goes with a status.
use qh_voice_kit.Base.{
  some, ◌≢◌, All, ℕ, ◌≡◌, refl, Bool, true, false, not, ◌||◌, Option, none, List, [], ◌∷◌, ◌==◌,
  arith, if_both, unless_both, option_both,
}
use qh_voice_kit.Base.Bytes.{Bytes, codes}
use qh_voice_kit.Base.Search.{find_text}
use qh_voice_kit.Endpoint.{parse_secure_endpoint}
use qh_voice_kit.Asr.{
  DoubaoAsrResult, DoubaoAsrStatus, intermediate_text, final_text, acknowledged,
  parse_doubao_asr_server_frame, build_doubao_asr_full_client_frame, build_doubao_asr_audio_frame,
}
use qh_voice_kit.Asr.Failure.{
  AsrFailureCategory, AsrFailureDiagnostic, auth, handshake, network, provider, protocol,
  classify_status, classify_asr_disconnect,
}
use qh_voice_kit.Asr.Transport.{
  AsrTransportStatus, complete, provider_error, protocol_error, disconnected, is_ready, is_complete,
  is_over, is_null, or_empty, AsrSocket, DoubaoAsrTransport, AsrSocketEvent, connected,
  socket_error, other_event, disconnected_event, binary_event, handle_disconnected,
  disconnect_socket, send_binary, called_back, handle_connected, handle_result, handle_event, begin,
  send_pcm16, finish, close,
}

-- A provider's error goes with a failure of the provider, an error of the protocol with one of the
-- protocol, and a lost connection with one of the network, of the handshake or of the credential.
abbrev pub explains : AsrTransportStatus → AsrFailureCategory → Bool
explains provider_error provider = true
explains provider_error _ = false
explains protocol_error protocol = true
explains protocol_error _ = false
explains disconnected auth = true
explains disconnected handshake = true
explains disconnected network = true
explains disconnected _ = false
explains _ _ = true

abbrev pub Explained : {W : Type 0} → DoubaoAsrTransport W → Type 0
Explained t = explains t.status t.failure.category ≡ true

-- The calls of a client, and the events of the library.
pub data Use : Type 0 where
  event : AsrSocketEvent → Use
  begins : Bytes → Bytes → Bytes → Bytes → Bytes → Use
  sends : Option Bytes → ℕ → Use
  finishes closes : Use

-- The endpoint is one that `begin` takes.
abbrev pub IsAccepted : Use → Type 0
IsAccepted (begins endpoint _ _ _ _) = parse_secure_endpoint endpoint (codes "wss://") 443 ≢ none
IsAccepted _ = Unit

abbrev IsLost : AsrFailureDiagnostic → Type 0
IsLost d = explains disconnected d.category ≡ true

classify-IsLost : (reason : Bytes) → IsLost (classify_asr_disconnect reason)
unfolding classify_asr_disconnect classify_status
classify-IsLost reason =
    option_both IsLost (find_text (codes "HTTP ") reason) (λ _. refl) (λ offset _. ground arith)

module _ {W : Type 0} (lib : AsrSocket W) where
  unfoldable pub use_step : Use → DoubaoAsrTransport W → DoubaoAsrTransport W
  use_step (event e) t = handle_event lib e t
  use_step (begins endpoint api_key resource request user) t =
      (begin lib endpoint api_key resource request user t).1
  use_step (sends pcm size) t = (send_pcm16 lib pcm size t).1
  use_step finishes t = (finish lib t).1
  use_step closes t = close lib t

  unfoldable pub use_steps : List Use → DoubaoAsrTransport W → DoubaoAsrTransport W
  unfolding use_step
  use_steps [] t = t
  use_steps (u ∷ uses) t = use_steps uses (use_step u t)

  handle_disconnected-Explained :
      (reason : Bytes) (t : DoubaoAsrTransport W)
      → Explained t
      → Explained (handle_disconnected lib reason t)
  unfolding handle_disconnected
  handle_disconnected-Explained reason t h =
      if_both Explained (is_over t.status) (λ _. h) (λ _. classify-IsLost reason)

  called_back-Explained :
      (called : Option Bytes) (t : DoubaoAsrTransport W)
      → Explained t
      → Explained (called_back lib called t)
  unfolding called_back
  called_back-Explained none t h = h
  called_back-Explained (some reason) t h = handle_disconnected-Explained reason t h

  disconnect_socket-Explained :
      (t : DoubaoAsrTransport W) → Explained t → Explained (disconnect_socket lib t)
  unfolding disconnect_socket
  disconnect_socket-Explained t h =
      let (called, w) = lib.disconnect t.socket in
      called_back-Explained called (record t { socket = w }) h

  send_binary-Explained :
      (frame : Bytes) (t : DoubaoAsrTransport W)
      → Explained t
      → Explained (send_binary lib frame t).1
  unfolding send_binary
  send_binary-Explained frame t h =
      let (_, called, w) = lib.send_bin frame t.socket in
      called_back-Explained called (record t { socket = w }) h

  handle_result-Explained :
      (s : DoubaoAsrStatus) (r : DoubaoAsrResult) (t : DoubaoAsrTransport W)
      → Explained t
      → Explained (handle_result lib s r t)
  unfolding handle_result
  handle_result-Explained intermediate_text r t h = h
  handle_result-Explained final_text r t h =
      disconnect_socket-Explained (record t { transcript = r.text; status = complete }) refl
  handle_result-Explained acknowledged r t h = h
  handle_result-Explained DoubaoAsrStatus.provider_error r t h = disconnect_socket-Explained _ refl
  handle_result-Explained DoubaoAsrStatus.protocol_error r t h = disconnect_socket-Explained _ refl

  use_step-Explained :
      (u : Use) (t : DoubaoAsrTransport W) → IsAccepted u → Explained t → Explained (use_step u t)
  unfolding use_step handle_event handle_connected begin send_pcm16 finish close
  use_step-Explained (event connected) t a h =
      if_both Explained (send_binary lib (build_doubao_asr_full_client_frame t.metadata) t).0
        (λ _. refl) (λ _. refl)
  use_step-Explained (event socket_error) t a h = refl
  use_step-Explained (event other_event) t a h = h
  use_step-Explained (event (disconnected_event payload)) t a h =
      handle_disconnected-Explained (or_empty payload) t h
  use_step-Explained (event (binary_event payload)) t a h =
      let result = parse_doubao_asr_server_frame (is_null payload) (or_empty payload) in
      handle_result-Explained result.status result t h
  use_step-Explained (begins endpoint api_key resource request user) t a h =
      option_both (λ (r : Bool × DoubaoAsrTransport W). Explained r.1)
        (parse_secure_endpoint endpoint (codes "wss://") 443) (λ e. absurd (a e)) (λ _ _. refl)
  use_step-Explained (sends pcm size) t a h =
      if_both (λ (r : Bool × DoubaoAsrTransport W). Explained r.1)
        (not (is_ready t.status) || is_null pcm || size == 0) (λ _. h)
        (λ _. send_binary-Explained (build_doubao_asr_audio_frame pcm size false) t h)
  use_step-Explained finishes t a h =
      let last = build_doubao_asr_audio_frame none 0 true in
      unless_both (λ (r : Bool × DoubaoAsrTransport W). Explained r.1) (is_ready t.status) (λ _. h)
        (λ _.
          unless_both (λ (r : Bool × DoubaoAsrTransport W). Explained r.1)
            (send_binary lib last t).0 (λ _. send_binary-Explained last t h) (λ _. refl))
  use_step-Explained closes t a h =
      if_both Explained (is_complete (disconnect_socket lib t).status)
        (λ _. disconnect_socket-Explained t h) (λ _. refl)

  -- After any calls and events of which each `begin` has an endpoint that it takes, from a
  -- transport where it holds (as in an idle one): the status of a provider's error goes with a
  -- failure of the provider, the status of an error of the protocol with a failure of the protocol,
  -- and a lost connection with a failure of the network, the handshake or the credential.
  pub use_steps-Explained :
      (uses : List Use) (t : DoubaoAsrTransport W)
      → All IsAccepted uses
      → Explained t
      → Explained (use_steps uses t)
  unfolding use_steps
  use_steps-Explained [] t a h = h
  use_steps-Explained (u ∷ uses) t (a, rest) h =
      use_steps-Explained uses (use_step u t) rest (use_step-Explained u t a h)
