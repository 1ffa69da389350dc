-- ===== src/Middleware/Logger.antt =====
-- internal/middleware/logger.go: which bodies are logged, and how much of them.
use nexo_im.Base.{
  ℕ, pos, leb, length, take, Text, codes, is_empty, not, ◌||◌, ◌&&◌, Bool, ◌++◌, if◌then◌else◌,
}
use nexo_im.Strings.{trim_space, to_lower, equal_fold, contains}
use nexo_im.Strconv.{format_int}

abbrev pub max_log_body_bytes : ℕ
max_log_body_bytes = 2048

-- Of the method and the headers Upgrade, Connection and Sec-WebSocket-Key.
unfoldable pub is_web_socket_handshake : Text → Text → Text → Text → Bool
is_web_socket_handshake method upgrade connection key =
    equal_fold method (codes "GET")
    && (equal_fold (trim_space upgrade) (codes "websocket")
        && (contains (codes "upgrade") (to_lower (trim_space connection)) && not (is_empty key)))

unfoldable pub format_body : Text → Bool → Text
format_body body skip =
    if skip || is_empty body
    then codes "-"
    else if leb (length body) max_log_body_bytes
    then body
    else take max_log_body_bytes body
      ++ (codes "...(truncated,total=" ++ (format_int (pos (length body)) ++ codes "B)"))
