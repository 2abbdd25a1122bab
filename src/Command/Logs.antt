-- ===== src/Command/Logs.antt =====
-- src/debug/logs.h and logs.c: which messages are printed and how. Text is a list of bytes.
use sencd.Base.{ℕ, Bool, false, ◌&&◌, Option, none, some, List, [], ◌∷◌, ◌++◌, ◌==◌, if◌then◌else◌}

pub data MsgT : Type 0 where
  info_msg : MsgT
  success_msg : MsgT
  warn_msg : MsgT
  error_msg : MsgT

pub data RuntimeT : Type 0 where
  server_rt : RuntimeT
  client_rt : RuntimeT
  other_rt : RuntimeT

-- The escape character, "[", the text and "m".
abbrev escape : List ℕ → List ℕ
escape text = 27 ∷ b'[' ∷ text ++ b'm' ∷ []

unfoldable pub asterisk_color : MsgT → List ℕ
asterisk_color info_msg = escape (b'9' ∷ b'4' ∷ [])
asterisk_color success_msg = escape (b'3' ∷ b'2' ∷ [])
asterisk_color warn_msg = escape (b'9' ∷ b'3' ∷ [])
asterisk_color error_msg = escape (b'3' ∷ b'1' ∷ [])

unfoldable pub runtime_label : RuntimeT → List ℕ
runtime_label server_rt = b'S' ∷ b'E' ∷ b'R' ∷ b'V' ∷ b'E' ∷ b'R' ∷ []
runtime_label client_rt = b'C' ∷ b'L' ∷ b'I' ∷ b'E' ∷ b'N' ∷ b'T' ∷ []
runtime_label other_rt = b'O' ∷ b'T' ∷ b'H' ∷ b'E' ∷ b'R' ∷ []

-- The early return: a message that is not the client's is held back.
unfoldable pub is_held_back : RuntimeT → ℕ → ℕ → Bool
is_held_back client_rt idle_f force_logs = false
is_held_back _ idle_f force_logs = idle_f == 0 && force_logs == 0

-- "'log_msg' failed to format the string".
abbrev pub format_failed : List ℕ
format_failed =
    39 ∷ b'l' ∷ b'o' ∷ b'g' ∷ b'_' ∷ b'm' ∷ b's' ∷ b'g' ∷ 39 ∷ 32 ∷ b'f' ∷ b'a' ∷ b'i' ∷ b'l' ∷ b'e'
    ∷ b'd' ∷ 32 ∷ b't' ∷ b'o' ∷ 32 ∷ b'f' ∷ b'o' ∷ b'r' ∷ b'm' ∷ b'a' ∷ b't' ∷ 32 ∷ b't' ∷ b'h'
    ∷ b'e' ∷ 32 ∷ b's' ∷ b't' ∷ b'r' ∷ b'i' ∷ b'n' ∷ b'g' ∷ []

-- "[%s*%s] [%s]: %s\n".
unfoldable pub log_line : MsgT → RuntimeT → List ℕ → List ℕ
unfolding asterisk_color runtime_label
log_line message_t runtime_t text =
    b'[' ∷ asterisk_color message_t
    ++ (b'*' ∷ escape (b'0' ∷ [])
        ++ (b']' ∷ 32 ∷ b'[' ∷ runtime_label runtime_t)
        ++ (b']' ∷ b':' ∷ 32 ∷ text ++ 10 ∷ []))

-- What `log_msg` prints; `formatted` is what `vsnprintf` made of the message and its arguments,
-- `none` where it or `malloc` failed.
unfoldable pub log_msg : ℕ → ℕ → MsgT → RuntimeT → Option (List ℕ) → List ℕ
unfolding is_held_back log_line
log_msg idle_f force_logs message_t runtime_t formatted =
    if is_held_back runtime_t idle_f force_logs
    then []
    else elim formatted [ none ↦ format_failed | some text ↦ log_line message_t runtime_t text ]
