-- ===== src/Input/Chat.antt =====
-- The line of the chat (client/ui/chat.c), a buffer with a cursor.
use multiplay_chess.Prelude.{
  ℕ, ◌&&◌, ◌||◌, leb, ◌==◌, true, false, if◌then◌else◌, some, [], ◌∷◌, replicate, set, take, drop,
  pos, ◌+ℤ◌, ◌-ℤ◌, pos_part, leb_ℤ, ltb_ℤ, Text, codes, c_string, text_eq,
}
use multiplay_chess.ClientState.{ClientState}
use multiplay_chess.Connection.{send_chat_message}
use multiplay_chess.Input.{Desk, Moment, Pressed, backspace, byte, ask, handle_chess_notation}

unfoldable pub enable_chat_input : ClientState → ClientState
enable_chat_input c = record c {
  chat_input_mode = true;
  chat_input_buffer = replicate 256 0;
  chat_input_cursor = pos 0;
}

unfoldable pub disable_chat_input : ClientState → ClientState
disable_chat_input c = record c {
  chat_input_mode = false;
  chat_input_buffer = replicate 256 0;
  chat_input_cursor = pos 0;
}

-- `chat_input_buffer[chat_input_cursor] = b`
abbrev pub write_byte : ℕ → ClientState → ClientState
write_byte b c = record c {
  chat_input_buffer = set c.chat_input_buffer (pos_part c.chat_input_cursor) b;
}

-- `while (*notation == ' ') notation++;`
abbrev pub skip_blanks : Text → Text
skip_blanks [] = []
skip_blanks (c ∷ s) = elim (c == b' ') [ true ↦ skip_blanks s | false ↦ c ∷ s ]

-- A line is a move or a message.
unfoldable pub submit : Moment → Text → Desk → Desk
submit m line d =
    if text_eq (take 5 line) (codes "move:")
    then (handle_chess_notation m (skip_blanks (drop 5 line)) d).1
    else ask (send_chat_message m.now (some line) d.client) d

unfoldable pub press_enter : Moment → Desk → Desk
press_enter m d =
    let c = write_byte 0 d.client in
    let submitted : Desk =
      if ltb_ℤ (pos 0) d.client.chat_input_cursor
      then submit m (c_string c.chat_input_buffer) (record d { client = c })
      else d in
    record submitted { client = disable_chat_input submitted.client }

unfoldable pub press_backspace : ClientState → ClientState
press_backspace c =
    if ltb_ℤ (pos 0) c.chat_input_cursor
    then write_byte 0 (record c { chat_input_cursor = c.chat_input_cursor -ℤ pos 1 })
    else c

-- The cursor is compared as an unsigned number.
unfoldable pub type_byte : ℕ → ClientState → ClientState
type_byte b c =
    let typed = write_byte b c in
    if leb 32 b
      && leb b 126
      && leb_ℤ (pos 0) c.chat_input_cursor
      && ltb_ℤ c.chat_input_cursor (pos 255)
    then record typed { chat_input_cursor = c.chat_input_cursor +ℤ pos 1 }
    else c

unfoldable pub chat_key : Moment → Pressed → Desk → Desk
chat_key m backspace d = record d { client = press_backspace d.client }
chat_key m (byte b) d =
    if (b == b'\n') || (b == b'\r')
    then press_enter m d
    else if b == 27
    then record d { client = disable_chat_input d.client }
    else if (b == 8) || (b == 127)
    then record d { client = press_backspace d.client }
    else record d { client = type_byte b d.client }
chat_key m _ d = d

unfoldable pub handle_chat_input : Moment → Pressed → Desk → Desk
handle_chat_input m ch d = if d.client.chat_input_mode then chat_key m ch d else d
