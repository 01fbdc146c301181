-- ===== src/Realtime/Messages.antt =====
-- realtime_voice_protocol.h: the messages that the client sends.
use qh_voice_kit.Base.{[], ◌∷◌, ◌++◌}
use qh_voice_kit.Base.Bytes.{Bytes, codes}
use qh_voice_kit.Base64.{encode_base64}
use qh_voice_kit.Provider.{ProviderTransportRequest}
use qh_voice_kit.Json.{escape_json_string}

abbrev pub realtime_voice_endpoint : Bytes
realtime_voice_endpoint = codes "wss://openspeech.bytedance.com/api/v3/duplex/realtime/dialogue"

abbrev pub realtime_voice_model : Bytes
realtime_voice_model = codes "1.2.6.1"

pub record RealtimeSessionConfig : Type 0 where
  pub session_id : Bytes
  pub instructions : Bytes
  pub voice : Bytes

unfoldable pub build_realtime_transport_request : Bytes → ProviderTransportRequest
build_realtime_transport_request api_key = record {
  endpoint = realtime_voice_endpoint;
  headers = record { name = codes "X-Api-Key"; value = api_key } ∷ [];
}

unfoldable pub build_realtime_session_create : RealtimeSessionConfig → Bytes → Bytes
build_realtime_session_create config event_id =
    codes "{\"type\":\"session.create\",\"event_id\":\""
    ++ (escape_json_string event_id
        ++ (codes "\",\"session\":{\"id\":\""
            ++ (escape_json_string config.session_id
                ++ (codes "\",\"model\":\""
                    ++ (realtime_voice_model
                        ++ (codes "\",\"instructions\":\""
                            ++ (escape_json_string config.instructions
                                ++ (codes
                                      "\",\"audio\":{\"input\":{\"format\":{\"type\":\"pcm\",\"rate\":16000}},\"output\":{\"format\":{\"type\":\"pcm_s16le\",\"rate\":24000},\"voice\":\""
                                    ++ (escape_json_string config.voice ++ codes "\"}}}}")))))))))

unfoldable pub build_realtime_audio_append : Bytes → Bytes
build_realtime_audio_append pcm =
    codes "{\"type\":\"input_audio_buffer.append\",\"audio\":\""
    ++ (encode_base64 pcm ++ codes "\"}")

unfoldable pub build_realtime_control_event : Bytes → Bytes → Bytes
build_realtime_control_event type event_id =
    codes "{\"type\":\""
    ++ (escape_json_string type
        ++ (codes "\",\"event_id\":\"" ++ (escape_json_string event_id ++ codes "\"}")))

unfoldable pub build_realtime_input_commit : Bytes → Bytes
unfolding build_realtime_control_event
build_realtime_input_commit = build_realtime_control_event (codes "input_audio_buffer.commit")

unfoldable pub build_realtime_mute_commit : Bytes → Bytes
unfolding build_realtime_control_event
build_realtime_mute_commit = build_realtime_control_event (codes "input_audio_mute.commit")

unfoldable pub build_realtime_unmute_commit : Bytes → Bytes
unfolding build_realtime_control_event
build_realtime_unmute_commit = build_realtime_control_event (codes "input_audio_unmute.commit")

unfoldable pub build_realtime_session_close : Bytes → Bytes
unfolding build_realtime_control_event
build_realtime_session_close = build_realtime_control_event (codes "session.close")
