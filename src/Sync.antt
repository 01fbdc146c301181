-- ===== src/Sync.antt =====
-- firmware/esp32_voice_kit/qh_sync_protocol.h and qh_sync_transport.h: a finished conversation turn
-- sent to the server of the user. `Client` is what the code calls of the platform's HTTPClient.
pub mod Client
pub mod Posted
use qh_voice_kit.Base.{not, ◌&&◌, ◌||◌, [], ◌∷◌, ◌++◌, if◌then◌else◌}
use qh_voice_kit.Base.Bytes.{Bytes, codes}
use qh_voice_kit.Base.Integers.{ℤ, pos, is, at_least, below}
use qh_voice_kit.Config.{QhSyncConfig}
use qh_voice_kit.Json.{escape_json_string}
use qh_voice_kit.Provider.{HeaderValue, ProviderTransportRequest}
use qh_voice_kit.Sync.Client.{HttpClient}

pub record QhConversationTurn : Type 0 where
  pub conversation_id : Bytes
  pub turn_id : Bytes
  pub occurred_at : Bytes
  pub transcript : Bytes
  pub reply : Bytes

-- The members that the three events share, behind the name of the event.
unfoldable pub event_members : QhConversationTurn → Bytes → Bytes → Bytes
event_members turn name type =
    name
    ++ (codes "\",\"conversationId\":\""
        ++ (escape_json_string turn.conversation_id
            ++ (codes "\",\"turnId\":\""
                ++ (escape_json_string turn.turn_id
                    ++ (codes "\",\"type\":\""
                        ++ (type
                            ++ (codes "\",\"occurredAt\":\""
                                ++ escape_json_string turn.occurred_at)))))))

unfoldable pub build_qh_conversation_event_body : QhConversationTurn → Bytes
unfolding event_members
build_qh_conversation_event_body turn =
    let event_prefix = escape_json_string (turn.turn_id ++ codes ".") in
    codes "{\"events\":[{\"eventId\":\""
    ++ (event_prefix
        ++ (event_members turn (codes "started") (codes "turn.started")
            ++ (codes "\"},{\"eventId\":\""
                ++ (event_prefix
                    ++ (event_members turn (codes "transcribed") (codes "input.transcribed")
                        ++ (codes "\",\"text\":\""
                            ++ (escape_json_string turn.transcript
                                ++ (codes "\"},{\"eventId\":\""
                                    ++ (event_prefix
                                        ++ (event_members turn (codes "reply")
                                              (codes "reply.generated")
                                            ++ (codes "\",\"text\":\""
                                                ++ (escape_json_string turn.reply
                                                    ++ codes "\"}]}"))))))))))))

abbrev header : Bytes → Bytes → HeaderValue
header name value = record { name = name; value = value }

unfoldable pub build_qh_sync_transport_request : Bytes → Bytes → ProviderTransportRequest
build_qh_sync_transport_request endpoint credential = record {
  endpoint = endpoint;
  headers =
      header (codes "Authorization") (codes "Bearer " ++ credential)
      ∷ header (codes "Content-Type") (codes "application/json")
      ∷ [];
}

pub data QhSyncError : Type 0 where
  none invalid_request connection auth server : QhSyncError

pub record QhSyncResult : Type 0 where
  pub error : QhSyncError
  pub http_status : ℤ

abbrev sync_result : QhSyncError → ℤ → QhSyncResult
sync_result error status = record { error = error; http_status = status }

-- The result for a status, behind the end of the request.
unfoldable pub sync_status : ℤ → QhSyncResult
sync_status status =
    if not (at_least status 1)
    then sync_result connection status
    else if is status 401 || is status 403
    then sync_result auth status
    else if below status 200 || at_least status 300
    then sync_result server status
    else sync_result none status

-- The result beside the client, which has kept what it was called with.
module _ {S : Type 0} (http : HttpClient S) where
  unfoldable pub post_qh_conversation_turn :
      QhSyncConfig → QhConversationTurn → S → QhSyncResult × S
  unfolding build_qh_sync_transport_request build_qh_conversation_event_body sync_status
  post_qh_conversation_turn config turn client =
      let (begun, client1) = http.begin config.endpoint client in
      let request = build_qh_sync_transport_request config.endpoint config.credential in
      let (status, client2) =
        http.post request.headers (build_qh_conversation_event_body turn) client1 in
      if not config.enabled
      then (sync_result none (pos 0), client)
      else if not begun
      then (sync_result invalid_request (pos 0), client1)
      else (sync_status status, http.end client2)
