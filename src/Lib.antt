-- ===== src/Lib.antt =====
-- A verification library for the ESP32-S3 firmware of QH Voice Kit, firmware/esp32_voice_kit. The
-- device records while its button is held, streams the sound to a realtime voice service over a
-- WebSocket, plays the answer, and takes its configuration over a serial line. The headers of that
-- folder are modelled here one by one, and esp32_voice_kit.ino, whose main loop and serial line
-- bring them together. The headers for recognition, replies and speech over HTTP belong to another
-- way of answering, which the sketch does not use.
--
-- The parts, with the file of firmware/esp32_voice_kit that each models:
-- - Turn: voice_turn_state.h, the state of a conversation.
-- - Base64: realtime_voice_protocol.h, the text form of PCM.
-- - Endpoint: secure_endpoint.h, the addresses of servers.
-- - Config: device_config.h, the configuration and its validation.
-- - Wire: device_config_wire.h, the binary form of a configuration.
-- - Json: json_string.h, JSON strings written and read, and the search of keys.
-- - Button: button_debouncer.h, the debounced button.
-- - Pacer: audio_frame_pacer.h, the spacing of audio frames.
-- - Buffer: playback_buffer_policy.h, the counters of the playback queue.
-- - Transaction: config_transaction.h, applying a configuration to an abstract store.
-- - Preferences: preferences_config_store.h, the two-slot store, an implementation of the
--   abstract one. The platform's `Preferences` is a parameter, and `Preferences.Nvs` lists what
--   is documented of it.
-- - Realtime: realtime_voice_protocol.h, the messages to and the events from the voice service.
-- - Provider: provider_request.h and websocket_disconnect_diagnostic.h, requests to the providers
--   and the codes of lost connections.
-- - Transport: realtime_voice_transport.h, the connection to the voice service and its queue of
--   events. The WebSocket client is a parameter.
-- - Pcm: pcm_audio.h, samples of 32 and 16 bits as bytes, and the volume.
-- - Provisioning: provisioning_command.h, the line that starts a transfer of a configuration.
-- - Sse: doubao_tts_sse.h, the parser of the event stream of the speech service.
-- - Reply: openai_reply_protocol.h, requests to a reply service and their answers.
-- - Tts: doubao_tts_protocol.h, requests to the speech service and their validation.
-- - Sync: qh_sync_protocol.h and qh_sync_transport.h, a conversation turn sent to the server of
--   the user. The HTTP client is a parameter.
-- - Http: provider_http_transport.h, requests to the reply service and the speech service. The
--   HTTP client is a parameter.
-- - Playback: buffered_pcm_playback.h, the playback that the main loop fills and a task empties,
--   as interleaved steps. The stream buffer and the output are parameters.
-- - Receiver: esp32_voice_kit.ino, the commands and the configuration that come over the serial
--   line. The digest of the platform is a parameter, the store any implementation of the
--   interface of Transaction.
-- - Asr: doubao_asr_protocol.h, asr_failure_diagnostic.h and doubao_asr_transport.h, the frames
--   of the speech recognition service and the connection to it. The socket library is a
--   parameter.
-- - Display: display_view.h, the texts of the screen.
-- - Device: esp32_voice_kit.ino, the main loop: recording, the events of the service, the network
--   and the connection, over the parts above. Wi-Fi, the audio bus, the clock, random numbers and
--   the methods of the playback are parameters.
-- - Tests: runs at concrete inputs, and the theorems below at inputs that meet their hypotheses.
-- - Base: byte strings, lists and tests over the native numbers, words of fixed width, bit
--   operations, decimal digits, and searches in a text (`find_first_of`, `rfind`).
--
-- A C++ string or vector of bytes is a list of numbers, each a byte where a theorem says so. An
-- index or cursor into a text is replaced by the list from there on, and a loop by recursion on it,
-- or on the rounds that are left. `std::nullopt`, `npos` and a sentinel of -1 are `none`. A method
-- that changes its object returns the new object beside its result. Unsigned arithmetic that can
-- wrap is written with its remainder; `size_t` has the 32 bits of the ESP32.
--
-- Fuel occurs in `Base.Decimal` (the digits of n, with n + 1 rounds, more than n has digits) and in
-- the reader of JSON strings (one round more than the text has bytes; a round takes at least one).
--
-- The storage class of the platform, the WebSocket client, the HTTP client, the stream buffer with
-- the audio output, and the digest are parameters: records of the operations that the code calls, or
-- functions. What the proofs use of them is a record of laws or a hypothesis.
--
-- The playback runs beside the main loop. Its methods and its task are functions of a point in the
-- code and the shared members, one access to an atomic or one library call at a time, and a list of
-- moves is one order of the two; the theorems hold for every list. The atomics are taken as
-- sequentially consistent, as their default is. An `int` that C++ leaves undefined at its overflow
-- (the event number of a stream, the status in a reason) keeps the 32 bits that the processor
-- computes.
--
-- The main loop is a state, `Device`, of which every function of esp32_voice_kit.ino is a function.
-- The state of the platform is passed through each call that reads or changes it, so that a clock or
-- a level may be another at each reading, and the task of the playback may run between two calls.
-- `serviceRealtimeEvents` has one round more than its queue has events; a round takes one, and none
-- puts one there.
--
-- Not modelled: the copy of arduinoWebSockets in firmware/esp32_voice_kit/src, which is another
-- project's; drawing, Wi-Fi and TLS, which are calls of libraries; and the lines that the main loop
-- prints for diagnosis.
mod Base
pub mod Turn
pub mod Base64
pub mod Endpoint
pub mod Config
pub mod Wire
pub mod Json
pub mod Button
pub mod Pacer
pub mod Buffer
pub mod Transaction
pub mod Preferences
pub mod Realtime
pub mod Provider
pub mod Transport
pub mod Pcm
pub mod Provisioning
pub mod Sse
pub mod Reply
pub mod Tts
pub mod Sync
pub mod Http
pub mod Playback
pub mod Receiver
pub mod Asr
pub mod Display
pub mod Device
mod Tests
