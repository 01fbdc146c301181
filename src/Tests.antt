-- ===== src/Tests.antt =====
-- Runs of the modelled code at concrete inputs, and each theorem at an input that meets its
-- hypotheses.
mod Turn
mod Base64
mod Endpoint
mod Config
mod Wire
mod Json
mod Button
mod Pacer
mod Buffer
mod Preferences
mod Realtime
mod Transport
mod Pcm
mod Provisioning
mod Sse
mod Http
mod Playback
mod Receiver
mod Asr
mod Device
