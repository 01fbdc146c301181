-- ===== src/Sync/Posted.antt =====
-- qh_sync_transport.h: when a turn is posted, and what is reported of it.
use qh_voice_kit.Base.{◌≡◌, ◌≤◌, ◌<◌, ◌↔◌, true, arith}
use qh_voice_kit.Base.Integers.{ℤ, pos, negsuc}
use qh_voice_kit.Config.{QhSyncConfig}
use qh_voice_kit.Sync.Client.{HttpClient}
use qh_voice_kit.Sync.{
  QhConversationTurn, QhSyncError, sync_status, build_qh_sync_transport_request,
  build_qh_conversation_event_body, post_qh_conversation_turn,
}

-- A status from 200 to 299.
abbrev pub IsSuccess : ℤ → Type 0
IsSuccess (pos n) = (200 ≤ n) × (n < 300)
IsSuccess (negsuc _) = ⊥

sync_status-error : (s : ℤ) → ((sync_status s).error ≡ QhSyncError.none) ↔ IsSuccess s
unfolding sync_status
sync_status-error (pos n) = ground arith
sync_status-error (negsuc n) = ground arith

module _ {S : Type 0} (http : HttpClient S) (config : QhSyncConfig) (turn : QhConversationTurn)
    (client : S) where
  -- What the one `POST` of an enabled configuration returns.
  abbrev pub status_of_post : ℤ
  status_of_post =
      (http.post (build_qh_sync_transport_request config.endpoint config.credential).headers
        (build_qh_conversation_event_body turn) (http.begin config.endpoint client).1).0

  -- With synchronisation enabled, a turn is reported as sent exactly when the client accepts the
  -- endpoint and the server answers the request with a status from 200 to 299.
  pub post_qh_conversation_turn-error_iff :
      config.enabled ≡ true
      → ((post_qh_conversation_turn http config turn client).0.error ≡ QhSyncError.none)
        ↔ (((http.begin config.endpoint client).0 ≡ true) × IsSuccess status_of_post)
  unfolding post_qh_conversation_turn
  post_qh_conversation_turn-error_iff h = ground (arith, sync_status-error status_of_post)
