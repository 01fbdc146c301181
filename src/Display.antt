-- ===== src/Display.antt =====
-- firmware/esp32_voice_kit/display_view.h: the texts that the screen shows in each state and for
-- each failure. A literal of the source is the UTF-8 form of its characters.
use qh_voice_kit.Base.{ℕ, ◌+◌, ◌/◌, ◌%◌, ◌||◌, List, [], ◌∷◌, ◌++◌, ltb, if◌then◌else◌}
use qh_voice_kit.Base.Bytes.{Bytes, codes, bytes_eq}

pub data UiState : Type 0 where
  booting setup_required connecting idle recording thinking playing success error : UiState

pub record DisplayView : Type 0 where
  pub title : Bytes
  pub detail : Bytes

-- The bytes of a character below 2^16.
unfoldable pub utf8_character : ℕ → Bytes
utf8_character c =
    if ltb c 0x80
    then c ∷ []
    else if ltb c 0x800
    then (0xc0 + c / 64) ∷ (0x80 + c % 64) ∷ []
    else (0xe0 + c / 4096) ∷ (0x80 + c / 64 % 64) ∷ (0x80 + c % 64) ∷ []

unfoldable pub utf8 : List ℕ → Bytes
unfolding utf8_character
utf8 [] = []
utf8 (c ∷ characters) = utf8_character c ++ utf8 characters

unfoldable pub view : List ℕ → List ℕ → DisplayView
unfolding utf8
view title detail = record { title = utf8 title; detail = utf8 detail }

unfoldable pub display_view_for : UiState → DisplayView
unfolding view
display_view_for booting = view (codes "正在启动") (codes "QH Voice Kit")
display_view_for setup_required = view (codes "等待配置") (codes "连接 USB，运行“开始配置”")
display_view_for connecting = view (codes "正在连接") (codes "请稍候")
display_view_for idle = view (codes "按住说话") (codes "说完后松开按钮")
display_view_for recording = view (codes "正在聆听") (codes "松开按钮后发送")
display_view_for thinking = view (codes "正在理解") (codes "正在生成回答")
display_view_for playing = view (codes "正在回答") (codes "请听扬声器")
display_view_for success = view (codes "对话完成") (codes "可以继续提问")
display_view_for error = view (codes "出现错误") (codes "请查看恢复提示")

unfoldable pub display_error_view : Bytes → DisplayView
unfolding view
display_error_view code =
    if bytes_eq code (codes "provider_auth_failed")
    then view (codes "连接失败") (codes "请检查 API Key")
    else if bytes_eq code (codes "wifi_connect_timeout")
        || bytes_eq code (codes "wifi_disconnected")
    then view (codes "网络异常") (codes "请检查 Wi-Fi")
    else if bytes_eq code (codes "microphone_start_failed")
        || bytes_eq code (codes "microphone_read_failed")
    then view (codes "麦克风异常") (codes "请检查接线")
    else if bytes_eq code (codes "playback_failed")
    then view (codes "播放失败") (codes "请检查功放和喇叭")
    else view (codes "出现错误") (codes "请稍后重试")
