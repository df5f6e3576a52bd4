-- ===== src/Screens/Menu.antt =====
-- What a key does on each screen of the client (client/main.c, client/ui/core.c).
use multiplay_chess.Prelude.{
  ℕ, ◌||◌, ◌==◌, Bool, true, false, if◌then◌else◌, Option, List, ◌++◌, take, ℤ, pos, ◌==ℤ◌, Text,
  is_empty, codes,
}
use multiplay_chess.Pgn.{Disk, File, save_current_game}
use multiplay_chess.ClientState.{
  Screen, screen_main, screen_matching, screen_game, ClientState, add_chat_message_safe,
}
use multiplay_chess.Handlers.{written}
use multiplay_chess.Connection.{start_matching, cancel_matching, send_resign_request}
use multiplay_chess.Input.{
  Desk, Moment, with_client, says, ask, Pressed, byte, UserInput, handle_keyboard_board_input,
}
use multiplay_chess.Input.Chat.{enable_chat_input, disable_chat_input, handle_chat_input}

-- The loop's own variables beside the desk, and the files written.
pub record App : Type 0 where
  pub desk : Desk
  pub prev_screen : Screen
  pub last_update_time : ℤ
  pub files : List File
  pub running : Bool

-- What a round meets: the clock and the result of sending, the disk, the two readings of the request
-- to stop, a resized terminal, the input, and the answer to the dialog for a name.
pub record Round : Type 0 where
  pub moment : Moment
  pub disk : Disk
  pub stop_before : Bool
  pub stop_after : Bool
  pub resized : Bool
  pub input : Option UserInput
  pub name : Text

abbrev pub on_desk : (Desk → Desk) → App → App
on_desk f a = record a { desk = f a.desk }

abbrev pub go_to_screen : Screen → App → App
go_to_screen s a = record a {
  desk = with_client (record a.desk.client { current_screen = s }) a.desk;
  prev_screen = s;
}

abbrev pub quit : App → App
quit a = record a { running = false }

unfoldable pub show_resign_dialog : ClientState → ClientState
show_resign_dialog c = record c { resign_dialog_active = true }

-- "y" sends the resignation, "n" and Escape close the dialog, other keys do nothing.
unfoldable pub confirm_resign : Moment → Desk → Desk
confirm_resign m d =
    let c = record d.client { resign_dialog_active = false } in
    let asked = send_resign_request m.now m.sent c in
    let text =
      if asked.result ==ℤ pos 0
      then codes "Resignation request sent."
      else codes "Failed to send resignation request." in
    says m text (ask asked d)

unfoldable pub handle_resign_dialog_input : Moment → Pressed → Desk → Bool × Desk
handle_resign_dialog_input m (byte b) d =
    if (b == b'y') || (b == b'Y')
    then (true, confirm_resign m d)
    else if (b == b'n') || (b == b'N') || (b == 27)
    then (true, with_client (record d.client { resign_dialog_active = false }) d)
    else (false, d)
handle_resign_dialog_input m ch d = (false, d)

-- The name that was typed, if any, becomes the user's.
unfoldable pub get_username_dialog : Text → ClientState → Bool × ClientState
get_username_dialog input c =
    if is_empty input then (false, c) else (true, record c { username = take 31 input })

unfoldable pub main_key : Round → ℕ → App → App
main_key r b a =
    let (named, c) = get_username_dialog r.name a.desk.client in
    let asked = ask (start_matching r.moment.now r.moment.sent c) (with_client c a.desk) in
    if b == b'1'
    then (if named
        then record a { desk = asked; prev_screen = screen_matching }
        else on_desk (with_client c) a)
    else if (b == b'3') || (b == b'q') || (b == b'Q')
    then quit a
    else a

unfoldable pub matching_key : ℕ → App → App
matching_key b a =
    if (b == 27) || (b == b'c') || (b == b'C')
    then record a { desk = ask (cancel_matching a.desk.client) a.desk; prev_screen = screen_main }
    else a

unfoldable pub save_game : Round → App → App
save_game r a =
    let c = a.desk.client in
    let (file, s) = save_current_game r.disk c.game_state in
    record a {
      desk = with_client (record c { game_state = s }) a.desk;
      files = written file ++ a.files;
    }

abbrev pub enter_key : Moment → Desk → Desk
enter_key m d =
    if d.client.chat_input_mode
    then handle_chat_input m (byte b'\n') d
    else if d.cursor_mode
    then d
    else with_client (enable_chat_input d.client) d

-- The menu of the game, behind the keys of the board. `\r` is handed to the chat like `\n`.
unfoldable pub game_menu : Round → Pressed → App → App
game_menu r (byte b) a =
    let m = r.moment in
    let c = a.desk.client in
    if b == b'1'
    then (if c.resign_dialog_active then a else on_desk (with_client (show_resign_dialog c)) a)
    else if b == b'2'
    then on_desk (with_client (add_chat_message_safe m.now c.username (codes "offers a draw.") c)) a
    else if b == b'3'
    then save_game r a
    else if (b == b'4') || (b == b'q') || (b == b'Q')
    then go_to_screen screen_main a
    else if b == 27
    then (if c.chat_input_mode then on_desk (with_client (disable_chat_input c)) a else a)
    else if (b == b'\n') || (b == b'\r')
    then on_desk (enter_key m) a
    else if c.chat_input_mode
    then on_desk (handle_chat_input m (byte b)) a
    else a
game_menu r ch a =
    if a.desk.client.chat_input_mode then on_desk (handle_chat_input r.moment ch) a else a

unfoldable pub game_key : Round → Pressed → App → App
game_key r ch a =
    let c = a.desk.client in
    let (used, d) = handle_keyboard_board_input r.moment ch a.desk in
    if c.resign_dialog_active
    then on_desk (λ e. (handle_resign_dialog_input r.moment ch e).1) a
    else if c.chat_input_mode
    then game_menu r ch a
    else if used
    then record a { desk = d }
    else game_menu r ch (record a { desk = d })

-- Arrows and the backspace do nothing off the game screen.
unfoldable pub screen_key : Round → Pressed → Screen → App → App
screen_key r ch screen_game a = game_key r ch a
screen_key r (byte b) screen_main a = main_key r b a
screen_key r (byte b) screen_matching a = matching_key b a
screen_key r _ _ a = a
