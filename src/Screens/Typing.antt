-- ===== src/Screens/Typing.antt =====
-- A line of chat through the keys of the main loop (client/main.c, client/ui/chat.c).
use multiplay_chess.Prelude.{
  ◌≡◌, refl, ap, ◌∙◌, not, ◌&&◌, Bool, true, false, List, [], ◌∷◌, is_empty, take, Text, text_eq,
  codes, arith,
}
use multiplay_chess.Protocol.{chat}
use multiplay_chess.ClientState.{screen_game}
use multiplay_chess.Input.{
  Desk, Pressed, arrow_up, arrow_down, arrow_left, arrow_right, backspace, byte,
}
use multiplay_chess.Input.Chat.{enable_chat_input, handle_chat_input}
use multiplay_chess.Input.Typing.{
  edits, edit_line, edit_all, all_edits, press_all, IsTyping, opened-IsTyping, key-IsTyping,
  keys-IsTyping, typed_line_sent,
}
use multiplay_chess.Screens.{App, Round, on_desk, game_menu, game_key, screen_key}
use multiplay_chess.Screens.Keys.{menu_byte}

-- The keys that reach the line: those that edit, but for those of the game's menu.
abbrev pub types : Pressed → Bool
types (byte b) = edits (byte b) && not (menu_byte b)
types ch = edits ch

abbrev pub all_typed : List Pressed → Bool
all_typed [] = true
all_typed (k ∷ keys) = types k && all_typed keys

unfoldable pub press_keys : Round → List Pressed → App → App
press_keys r [] a = a
press_keys r (k ∷ keys) a = press_keys r keys (screen_key r k screen_game a)

-- A key that reaches the line, and Enter, are the chat's.
typing_key :
    (r : Round) (k : Pressed) (a : App)
    → types k ≡ true
    → a.desk.client.chat_input_mode ≡ true
    → a.desk.client.resign_dialog_active ≡ false
    → screen_key r k screen_game a ≡ on_desk (handle_chat_input r.moment k) a
unfolding screen_key game_key game_menu
typing_key r (byte b) a t mode quiet = ground arith
typing_key r arrow_up a t mode quiet = ground arith
typing_key r arrow_down a t mode quiet = ground arith
typing_key r arrow_left a t mode quiet = ground arith
typing_key r arrow_right a t mode quiet = ground arith
typing_key r backspace a t mode quiet = ground arith

enter_sends :
    (r : Round) (a : App)
    → a.desk.client.chat_input_mode ≡ true
    → a.desk.client.resign_dialog_active ≡ false
    → screen_key r (byte b'\n') screen_game a ≡ on_desk (handle_chat_input r.moment (byte b'\n')) a
unfolding screen_key game_key game_menu
enter_sends r a mode quiet = ground arith

all_typed-edits : (keys : List Pressed) → all_typed keys ≡ true → all_edits keys ≡ true
all_typed-edits [] h = refl
all_typed-edits (byte b ∷ keys) h = let more = all_typed-edits keys (ground arith) in ground arith
all_typed-edits (arrow_up ∷ keys) h = all_typed-edits keys h
all_typed-edits (arrow_down ∷ keys) h = all_typed-edits keys h
all_typed-edits (arrow_left ∷ keys) h = all_typed-edits keys h
all_typed-edits (arrow_right ∷ keys) h = all_typed-edits keys h
all_typed-edits (backspace ∷ keys) h = all_typed-edits keys h

types-edits : (k : Pressed) → types k ≡ true → edits k ≡ true
types-edits (byte b) h = ground arith
types-edits arrow_up h = h
types-edits arrow_down h = h
types-edits arrow_left h = h
types-edits arrow_right h = h
types-edits backspace h = h

press_keys-chat :
    (r : Round) (keys : List Pressed) (s : Text) (before : Desk) (a : App)
    → all_typed keys ≡ true
    → IsTyping s before a.desk
    → before.client.resign_dialog_active ≡ false
    → press_keys r keys a ≡ on_desk (press_all r.moment keys) a
unfolding press_keys press_all
press_keys-chat r [] s before a h t quiet = refl
press_keys-chat r (k ∷ keys) s before a h t quiet =
    let one : types k ≡ true = ground arith in
    ap (press_keys r keys) (typing_key r k a one t.mode (t.asking ∙ quiet))
    ∙ press_keys-chat r keys (edit_line k s) before (on_desk (handle_chat_input r.moment k) a)
        (ground arith) (key-IsTyping r.moment s before a.desk k (types-edits k one) t) quiet

-- The line of chat opened on the game screen, with no question whether to resign.
abbrev pub opened : App → App
opened a = on_desk (λ d. record d { client = enable_chat_input d.client }) a

-- The line typed on the game screen after the chat is opened, by any keys but Enter, Escape and those
-- of the game's menu, is sent by Enter exactly as it stands after those keys: printable bytes appended
-- up to 255, backspaces taking the last one away. No question whether to resign may be open, the line
-- must not be empty nor start with "move:", and the client must be connected. The chat is closed then.
pub chat_line_sent :
    (r : Round) (keys : List Pressed) (a : App)
    → all_typed keys ≡ true
    → a.desk.client.resign_dialog_active ≡ false
    → a.desk.client.connected ≡ true
    → is_empty (edit_all keys []) ≡ false
    → text_eq (take 5 (edit_all keys [])) (codes "move:") ≡ false
    → ((screen_key r (byte b'\n') screen_game (press_keys r keys (opened a))).desk.requests
        ≡ chat (edit_all keys []) ∷ a.desk.requests)
      × ((screen_key r
            (byte b'\n')
            screen_game
            (press_keys r keys (opened a))).desk.client.chat_input_mode
          ≡ false)
chat_line_sent r keys a h quiet on full plain =
    let e = all_typed-edits keys h in
    let t0 = opened-IsTyping a.desk in
    let t = keys-IsTyping r.moment keys [] a.desk (opened a).desk e t0 in
    let typed = press_keys-chat r keys [] a.desk (opened a) h t0 quiet in
    let pressed = on_desk (press_all r.moment keys) (opened a) in
    let whole =
      ap (screen_key r (byte b'\n') screen_game) typed
      ∙ enter_sends r pressed t.mode (t.asking ∙ quiet) in
    let (sent, closed) = typed_line_sent r.moment keys a.desk e on full plain in
    (
      ap (λ (b : App). b.desk.requests) whole ∙ sent,
      ap (λ (b : App). b.desk.client.chat_input_mode) whole ∙ closed,
    )
