-- ===== src/Screens/Keys.antt =====
-- The keys on the game screen while a line of chat is typed (client/main.c).
use multiplay_chess.Prelude.{◌≡◌, ◌||◌, ◌==◌, ℕ, Bool, true, false, if◌then◌else◌, codes, arith}
use multiplay_chess.ClientState.{screen_main, screen_game, add_chat_message_safe}
use multiplay_chess.Input.{with_client, byte}
use multiplay_chess.Screens.{
  App, Round, show_resign_dialog, save_game, game_menu, game_key, screen_key,
}

-- The keys that the game's menu names.
abbrev pub menu_byte : ℕ → Bool
menu_byte b = (b == b'1') || (b == b'2') || (b == b'3') || (b == b'4') || (b == b'q') || (b == b'Q')

-- What they do: ask whether to resign, offer a draw, save the game, leave for the main screen.
abbrev pub menu_work : Round → ℕ → App → App
menu_work r b a =
    let c = a.desk.client in
    if b == b'1'
    then record a { desk = with_client (record c { resign_dialog_active = true }) a.desk }
    else if b == b'2'
    then record a {
      desk =
          with_client (add_chat_message_safe r.moment.now c.username (codes "offers a draw.") c)
            a.desk;
    }
    else if b == b'3'
    then save_game r a
    else record a {
      desk = with_client (record c { current_screen = screen_main }) a.desk;
      prev_screen = screen_main;
    }

-- While a line is typed on the game screen and no question whether to resign is open, a key of the
-- menu is not typed: it works the menu ("1" asks whether to resign, "2" offers a draw, "3" saves the
-- game, "4", "q" and "Q" leave for the main screen), and the line stays as it was.
pub menu_byte_not_typed :
    (r : Round) (b : ℕ) (a : App)
    → a.desk.client.chat_input_mode ≡ true
    → a.desk.client.resign_dialog_active ≡ false
    → menu_byte b ≡ true
    → (screen_key r (byte b) screen_game a ≡ menu_work r b a)
      × ((screen_key r (byte b) screen_game a).desk.client.chat_input_buffer
          ≡ a.desk.client.chat_input_buffer)
      × ((screen_key r (byte b) screen_game a).desk.client.chat_input_cursor
          ≡ a.desk.client.chat_input_cursor)
unfolding screen_key game_key game_menu save_game show_resign_dialog add_chat_message_safe
menu_byte_not_typed r b a typing no_dialog menu = (ground arith, ground arith, ground arith)
