-- ===== src/Device/Streamed/Frames.antt =====
-- esp32_voice_kit.ino, `serviceRecording`: one call, from the clock to the frame.
use qh_voice_kit.Device.{Device}
use qh_voice_kit.Device.Streamed.{Streamed}
