-- ===== src/Transport/Steps.antt =====
-- realtime_voice_transport.h: the calls of a client and the events of the socket as steps.
use qh_voice_kit.Base.{List, [], ◌∷◌, Option}
use qh_voice_kit.Base.Bytes.{Bytes}
use qh_voice_kit.Config.{RealtimeVoiceConfig}
use qh_voice_kit.Realtime.Messages.{RealtimeSessionConfig}
use qh_voice_kit.Transport.{
  SocketLibrary, RealtimeVoiceTransport, SocketEvent, handle_socket_event, begin_session,
  begin_input, send_pcm16, commit_input, mute_input, pop_event, close,
}

pub data Action : Type 0 where
  begun : RealtimeVoiceConfig → RealtimeSessionConfig → Action
  input_begun input_muted : Bytes → Action
  pcm_sent : Option Bytes → Action
  input_committed : Bytes → Bytes → Action
  popped closed : Action
  happened : SocketEvent → Action

module _ {W : Type 0} (lib : SocketLibrary W) where
  unfoldable pub step : Action → RealtimeVoiceTransport W → RealtimeVoiceTransport W
  step (begun provider session) t = (begin_session lib provider session t).1
  step (input_begun id) t = (begin_input lib id t).1
  step (input_muted id) t = (mute_input lib id t).1
  step (pcm_sent pcm) t = (send_pcm16 lib pcm t).1
  step (input_committed id mute_id) t = (commit_input lib id mute_id t).1
  step popped t = (pop_event lib t).1
  step closed t = close lib t
  step (happened event) t = handle_socket_event lib event t

  -- The state after the steps, the newest first.
  unfoldable pub steps : List Action → RealtimeVoiceTransport W → RealtimeVoiceTransport W
  unfolding step
  steps [] t = t
  steps (a ∷ earlier) t = step a (steps earlier t)
