-- ===== src/Asr/Transport.antt =====
-- firmware/esp32_voice_kit/doubao_asr_transport.h: a recognition over a WebSocket. The client
-- library is a parameter; `disconnect` and `sendBIN` may call the handler with WStype_DISCONNECTED
-- before they return, and their results say with what reason. `SttConfig` is declared nowhere; the
-- members that are used are arguments.
pub mod Failed
use qh_voice_kit.Base.{
  ℕ, Bool, true, false, not, ◌||◌, Option, none, some, [], ◌∷◌, ◌==◌, if◌then◌else◌,
}
use qh_voice_kit.Base.Bytes.{Bytes, codes}
use qh_voice_kit.Base.Integers.{pos}
use qh_voice_kit.Endpoint.{SecureEndpoint, parse_secure_endpoint}
use qh_voice_kit.Provider.{build_doubao_asr_transport_request, format_web_socket_extra_headers}
use qh_voice_kit.Asr.{
  DoubaoAsrMetadata, DoubaoAsrResult, DoubaoAsrStatus, intermediate_text, final_text, acknowledged,
  build_doubao_asr_full_client_frame, build_doubao_asr_audio_frame, parse_doubao_asr_server_frame,
}
use qh_voice_kit.Asr.Failure.{
  AsrFailureDiagnostic, diagnostic, no_failure, network, provider, protocol,
  classify_asr_disconnect,
}

pub data AsrTransportStatus : Type 0 where
  idle connecting ready awaiting_final complete provider_error protocol_error disconnected :
      AsrTransportStatus

abbrev pub is_ready : AsrTransportStatus → Bool
is_ready ready = true
is_ready _ = false

abbrev pub is_complete : AsrTransportStatus → Bool
is_complete complete = true
is_complete _ = false

-- The statuses in which a lost connection is expected.
abbrev pub is_over : AsrTransportStatus → Bool
is_over provider_error = true
is_over protocol_error = true
is_over complete = true
is_over idle = true
is_over _ = false

pub record AsrSocket (W : Type 0) : Type 0 where
  pub open_socket : Bytes → SecureEndpoint → W → W
  pub send_bin : Bytes → W → Bool × Option Bytes × W
  pub disconnect : W → Option Bytes × W

pub record DoubaoAsrTransport (W : Type 0) : Type 0 where
  pub socket : W
  pub metadata : DoubaoAsrMetadata
  pub status : AsrTransportStatus
  pub extra_headers : Bytes
  pub transcript : Bytes
  pub provider_code : ℕ
  pub failure : AsrFailureDiagnostic

-- `WStype_t` with its payload; a null payload is `none`.
pub data AsrSocketEvent : Type 0 where
  connected socket_error other_event : AsrSocketEvent
  disconnected_event binary_event : Option Bytes → AsrSocketEvent

abbrev pub or_empty : Option Bytes → Bytes
or_empty none = []
or_empty (some bytes) = bytes

abbrev pub is_null : Option Bytes → Bool
is_null none = true
is_null (some _) = false

module _ {W : Type 0} (lib : AsrSocket W) where
  unfoldable pub handle_disconnected : Bytes → DoubaoAsrTransport W → DoubaoAsrTransport W
  handle_disconnected reason t =
      if is_over t.status
      then t
      else record t { failure = classify_asr_disconnect reason; status = disconnected }

  -- The handler's call inside a call of the library, when there is one.
  unfoldable pub called_back : Option Bytes → DoubaoAsrTransport W → DoubaoAsrTransport W
  unfolding handle_disconnected
  called_back none t = t
  called_back (some reason) t = handle_disconnected reason t

  unfoldable pub disconnect_socket : DoubaoAsrTransport W → DoubaoAsrTransport W
  unfolding called_back
  disconnect_socket t =
      let (called, w) = lib.disconnect t.socket in called_back called (record t { socket = w })

  -- `sendBIN` of a frame.
  unfoldable pub send_binary : Bytes → DoubaoAsrTransport W → Bool × DoubaoAsrTransport W
  unfolding called_back
  send_binary frame t =
      let (sent, called, w) = lib.send_bin frame t.socket in
      (sent, called_back called (record t { socket = w }))

  unfoldable pub handle_connected : DoubaoAsrTransport W → DoubaoAsrTransport W
  unfolding send_binary
  handle_connected t =
      let (sent, t1) = send_binary (build_doubao_asr_full_client_frame t.metadata) t in
      if sent
      then record t1 { status = ready }
      else record t1 { failure = diagnostic network (pos 0) 0; status = disconnected }

  unfoldable pub handle_result :
      DoubaoAsrStatus → DoubaoAsrResult → DoubaoAsrTransport W → DoubaoAsrTransport W
  unfolding disconnect_socket
  handle_result intermediate_text result t = record t { transcript = result.text }
  handle_result final_text result t =
      disconnect_socket (record t { transcript = result.text; status = complete })
  handle_result acknowledged result t = t
  handle_result DoubaoAsrStatus.provider_error result t = disconnect_socket (record t {
    provider_code = result.provider_code;
    failure = diagnostic provider (pos 0) result.provider_code;
    status = provider_error;
  })
  handle_result DoubaoAsrStatus.protocol_error result t =
      disconnect_socket
        (record t { failure = diagnostic protocol (pos 0) 0; status = protocol_error })

  unfoldable pub handle_event : AsrSocketEvent → DoubaoAsrTransport W → DoubaoAsrTransport W
  unfolding handle_connected handle_disconnected handle_result
  handle_event connected t = handle_connected t
  handle_event socket_error t = record t {
    failure = diagnostic network (pos 0) 0;
    status = disconnected;
  }
  handle_event (disconnected_event payload) t = handle_disconnected (or_empty payload) t
  handle_event (binary_event payload) t =
      let result = parse_doubao_asr_server_frame (is_null payload) (or_empty payload) in
      handle_result result.status result t
  handle_event other_event t = t

  unfoldable pub begin :
      Bytes → Bytes → Bytes → Bytes → Bytes → DoubaoAsrTransport W → Bool × DoubaoAsrTransport W
  begin config_endpoint api_key resource_id request_id user_id t =
      elim (parse_secure_endpoint config_endpoint (codes "wss://") 443) [
        | none ↦ (false, record t { status = protocol_error })
        | some endpoint ↦
            let request =
              build_doubao_asr_transport_request config_endpoint api_key resource_id request_id in
            let extra = format_web_socket_extra_headers request.headers in
            (
              true,
              record {
                socket = lib.open_socket extra endpoint t.socket;
                metadata = record {
                  user_id = user_id;
                  audio_format = codes "pcm";
                  sample_rate = 16000;
                  bits_per_sample = 16;
                  channels = 1;
                  model_name = codes "bigmodel";
                  result_type = codes "single";
                  show_utterances = true;
                };
                status = connecting;
                extra_headers = extra;
                transcript = [];
                provider_code = 0;
                failure = diagnostic no_failure (pos 0) 0;
              },
            )
      ]

  unfoldable pub send_pcm16 : Option Bytes → ℕ → DoubaoAsrTransport W → Bool × DoubaoAsrTransport W
  unfolding send_binary
  send_pcm16 pcm size t =
      if not (is_ready t.status) || is_null pcm || size == 0
      then (false, t)
      else send_binary (build_doubao_asr_audio_frame pcm size false) t

  unfoldable pub finish : DoubaoAsrTransport W → Bool × DoubaoAsrTransport W
  unfolding send_binary
  finish t =
      let (sent, t1) = send_binary (build_doubao_asr_audio_frame none 0 true) t in
      if not (is_ready t.status)
      then (false, t)
      else if not sent
      then (false, t1)
      else (true, record t1 { status = awaiting_final })

  unfoldable pub close : DoubaoAsrTransport W → DoubaoAsrTransport W
  unfolding disconnect_socket
  close t =
      let t1 = disconnect_socket t in
      if is_complete t1.status then t1 else record t1 { status = idle }
