-- ===== src/Input/Typing.antt =====
-- What is typed into the line of the chat, and what is sent (client/ui/chat.c).
use mathlib.Core.Path.{subst}
use multiplay_chess.Prelude.{
  ++_nil, is_empty, if-Holds, ℕ, ◌-◌, ◌≡◌, refl, sym, ap, ◌∙◌, not, ◌&&◌, ◌||◌, leb, ◌==◌, Bool,
  Bool-cases, true, false, inl, inr, if◌then◌else◌, if-True, if-False, List, [], ◌∷◌, ◌++◌, length,
  replicate, set, take, pos, pos_part, leb_ℤ, ltb_ℤ, Text, codes, c_string, text_eq, arith,
}
use multiplay_chess.Protocol.{chat}
use multiplay_chess.ClientState.{ClientState}
use multiplay_chess.Connection.{Asked, send_chat_message}
use multiplay_chess.Input.{
  Desk, Moment, Pressed, arrow_up, arrow_down, arrow_left, arrow_right, backspace, byte, handed,
}
use multiplay_chess.Input.Chat.{
  enable_chat_input, disable_chat_input, write_byte, submit, press_enter, press_backspace,
  type_byte, chat_key, handle_chat_input,
}
use multiplay_chess.Input.Line.{
  drop_last, append, Holds, zeros, zeros_next, set_end, c_string-++, type_byte-Holds,
  press_backspace-Holds,
}

-- The keys that edit the line, and what they make of it.
abbrev pub ends : ℕ → Bool
ends b = (b == b'\n') || (b == b'\r') || (b == 27)

abbrev pub edits : Pressed → Bool
edits (byte b) = not (ends b)
edits _ = true

abbrev pub edit_line : Pressed → Text → Text
edit_line backspace s = drop_last s
edit_line (byte b) s = if (b == 8) || (b == 127) then drop_last s else append b s
edit_line _ s = s

abbrev pub edit_all : List Pressed → Text → Text
edit_all [] s = s
edit_all (k ∷ keys) s = edit_all keys (edit_line k s)

abbrev pub all_edits : List Pressed → Bool
all_edits [] = true
all_edits (k ∷ keys) = edits k && all_edits keys

unfoldable pub press_all : Moment → List Pressed → Desk → Desk
press_all m [] d = d
press_all m (k ∷ keys) d = press_all m keys (handle_chat_input m k d)

-- The line is being typed, and nothing else has changed.
pub record IsTyping (s : Text) (before d : Desk) : Type 0 where
  pub holds : Holds s d.client
  pub mode : d.client.chat_input_mode ≡ true
  pub connected : d.client.connected ≡ before.client.connected
  pub requests : d.requests ≡ before.requests
  pub asking : d.client.resign_dialog_active ≡ before.client.resign_dialog_active

backspace-IsTyping :
    (s : Text) (before d : Desk)
    → IsTyping s before d
    → IsTyping (drop_last s) before (record d { client = press_backspace d.client })
unfolding press_backspace
backspace-IsTyping s before d t = record {
  holds = press_backspace-Holds s d.client t.holds;
  mode =
      if-Holds (λ (c : ClientState). c.chat_input_mode ≡ true)
        (ltb_ℤ (pos 0) d.client.chat_input_cursor) t.mode t.mode;
  connected =
      if-Holds (λ (c : ClientState). c.connected ≡ before.client.connected)
        (ltb_ℤ (pos 0) d.client.chat_input_cursor) t.connected t.connected;
  requests = t.requests;
  asking =
      if-Holds (λ (c : ClientState). c.resign_dialog_active ≡ before.client.resign_dialog_active)
        (ltb_ℤ (pos 0) d.client.chat_input_cursor) t.asking t.asking;
}

byte-IsTyping :
    (s : Text) (before d : Desk) (b : ℕ)
    → IsTyping s before d
    → IsTyping (append b s) before (record d { client = type_byte b d.client })
unfolding type_byte
byte-IsTyping s before d b t =
    let test =
      leb 32 b
      && leb b 126
      && leb_ℤ (pos 0) d.client.chat_input_cursor
      && ltb_ℤ d.client.chat_input_cursor (pos 255) in
    record {
      holds = type_byte-Holds s d.client b t.holds;
      mode = if-Holds (λ (c : ClientState). c.chat_input_mode ≡ true) test t.mode t.mode;
      connected =
          if-Holds (λ (c : ClientState). c.connected ≡ before.client.connected) test t.connected
            t.connected;
      requests = t.requests;
      asking =
          if-Holds
            (λ (c : ClientState). c.resign_dialog_active ≡ before.client.resign_dialog_active) test
            t.asking t.asking;
    }

pub key-IsTyping :
    (m : Moment) (s : Text) (before d : Desk) (k : Pressed)
    → edits k ≡ true
    → IsTyping s before d
    → IsTyping (edit_line k s) before (handle_chat_input m k d)
unfolding handle_chat_input chat_key
key-IsTyping m s before d arrow_up e t =
    if-True (IsTyping s before) _ _ d.client.chat_input_mode t.mode t
key-IsTyping m s before d arrow_down e t =
    if-True (IsTyping s before) _ _ d.client.chat_input_mode t.mode t
key-IsTyping m s before d arrow_left e t =
    if-True (IsTyping s before) _ _ d.client.chat_input_mode t.mode t
key-IsTyping m s before d arrow_right e t =
    if-True (IsTyping s before) _ _ d.client.chat_input_mode t.mode t
key-IsTyping m s before d backspace e t =
    if-True (IsTyping (drop_last s) before) _ _ d.client.chat_input_mode t.mode
      (backspace-IsTyping s before d t)
key-IsTyping m s before d (byte b) e t =
    if-True (IsTyping (edit_line (byte b) s) before) _ _ d.client.chat_input_mode t.mode (
      if-False (IsTyping (edit_line (byte b) s) before) _ _ ((b == b'\n') || (b == b'\r'))
        (ground arith)
        (if-False (IsTyping (edit_line (byte b) s) before) _ _ (b == 27) (ground arith)
          (elim (Bool-cases ((b == 8) || (b == 127))) [
            | inl erased ↦
                if-True (IsTyping (edit_line (byte b) s) before) _ _ ((b == 8) || (b == 127)) erased
                  (if-True (λ l. IsTyping l before (record d { client = press_backspace d.client }))
                    _ _ ((b == 8) || (b == 127)) erased (backspace-IsTyping s before d t))
            | inr typed ↦
                if-False (IsTyping (edit_line (byte b) s) before) _ _ ((b == 8) || (b == 127)) typed
                  (if-False (λ l. IsTyping l before (record d { client = type_byte b d.client })) _
                    _ ((b == 8) || (b == 127)) typed (byte-IsTyping s before d b t))
          ])))

pub keys-IsTyping :
    (m : Moment) (keys : List Pressed) (s : Text) (before d : Desk)
    → all_edits keys ≡ true
    → IsTyping s before d
    → IsTyping (edit_all keys s) before (press_all m keys d)
unfolding press_all
keys-IsTyping m [] s before d e t = t
keys-IsTyping m (k ∷ keys) s before d e t =
    keys-IsTyping m keys (edit_line k s) before (handle_chat_input m k d) (ground arith)
      (key-IsTyping m s before d k (ground arith) t)

line_read :
    (s : Text) (c : ClientState) → Holds s c → c_string (write_byte 0 c).chat_input_buffer ≡ s
line_read s c h =
    let left = 255 - length s in
    let fits = h.fits in
    let room : replicate (256 - length s) 0 ≡ 0 ∷ zeros left =
      zeros_next (256 - length s) left (omega arith) in
    ap (λ z. c_string (set c.chat_input_buffer (pos_part z) 0)) h.at_end
    ∙ (ap (λ l. c_string (set l (length s) 0)) (h.array ∙ ap (λ z. s ++ z) room)
        ∙ (ap c_string (set_end s 0 0 (zeros left))
            ∙ (c_string-++ s (0 ∷ zeros left) h.string ∙ ++_nil s)))

-- Enter on a line that is not empty and is no move sends it.
press_enter-sends :
    (m : Moment) (s : Text) (d : Desk)
    → Holds s d.client
    → d.client.connected ≡ true
    → is_empty s ≡ false
    → text_eq (take 5 s) (codes "move:") ≡ false
    → (press_enter m d).requests ≡ chat s ∷ d.requests
unfolding press_enter submit send_chat_message
press_enter-sends m s d h on full plain =
    let c = write_byte 0 d.client in
    let typed : ltb_ℤ (pos 0) d.client.chat_input_cursor ≡ true = ground (arith, h.at_end) in
    if-True (λ (e : Desk). e.requests ≡ chat s ∷ d.requests) _ _
      (ltb_ℤ (pos 0) d.client.chat_input_cursor) typed
      (subst (λ l. (submit m l (record d { client = c })).requests ≡ chat s ∷ d.requests)
        (sym (line_read s d.client h))
        (if-False (λ (e : Desk). e.requests ≡ chat s ∷ d.requests) _ _
          (text_eq (take 5 s) (codes "move:")) plain
          (if-False (λ (a : Asked). handed a.request d.requests ≡ chat s ∷ d.requests) _ _
            (not d.client.connected) (ap not on)
            (if-False (λ r. handed r d.requests ≡ chat s ∷ d.requests) _ _ (is_empty s) full
              refl))))

pub opened-IsTyping : (d : Desk) → IsTyping [] d (record d { client = enable_chat_input d.client })
unfolding enable_chat_input
opened-IsTyping d = record {
  holds = record { array = refl; at_end = refl; fits = omega arith; string = refl };
  mode = refl;
  connected = refl;
  requests = refl;
  asking = refl;
}

-- The line that handle_chat_input is given after the chat is opened, by any keys but Enter and
-- Escape, is sent by Enter exactly
-- as it stands after those keys: printable bytes appended up to 255, backspaces taking the last one
-- away. It must not be empty nor start with "move:", and the client must be connected. The chat is
-- closed then.
pub typed_line_sent :
    (m : Moment) (keys : List Pressed) (d : Desk)
    → all_edits keys ≡ true
    → d.client.connected ≡ true
    → is_empty (edit_all keys []) ≡ false
    → text_eq (take 5 (edit_all keys [])) (codes "move:") ≡ false
    → ((handle_chat_input m
          (byte b'\n')
          (press_all m keys (record d { client = enable_chat_input d.client }))).requests
        ≡ chat (edit_all keys []) ∷ d.requests)
      × ((handle_chat_input m (byte b'\n') (
            press_all m keys
              (record d { client = enable_chat_input d.client }))).client.chat_input_mode
          ≡ false)
unfolding handle_chat_input chat_key enable_chat_input press_enter disable_chat_input
typed_line_sent m keys d e on full plain =
    let opened : Desk = record d { client = enable_chat_input d.client } in
    let t = keys-IsTyping m keys [] d opened e (opened-IsTyping d) in
    let after = press_all m keys opened in
    let sent = press_enter-sends m (edit_all keys []) after t.holds (t.connected ∙ on) full plain in
    (
      if-True (λ (x : Desk). x.requests ≡ chat (edit_all keys []) ∷ d.requests) _ _
          after.client.chat_input_mode t.mode
          (sent ∙ ap (λ r. chat (edit_all keys []) ∷ r) t.requests),
      if-True (λ (x : Desk). x.client.chat_input_mode ≡ false) _ _ after.client.chat_input_mode
          t.mode refl,
    )
