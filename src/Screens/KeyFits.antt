-- ===== src/Screens/KeyFits.antt =====
-- The connection, the texts and the counts of the client under the keys of every screen (client/main.c,
-- client/ui/core.c).
use multiplay_chess.Prelude.{
  if-Holds, refl, ◌==◌, ◌||◌, Bool, true, false, if◌then◌else◌, ℕ, take, pos, ◌==ℤ◌, is_empty,
  codes, Text,
}
use multiplay_chess.Client.{GameState}
use multiplay_chess.ClientState.{
  Screen, screen_main, screen_matching, screen_game, ClientState, add_chat_message_safe,
}
use multiplay_chess.Pgn.{save_current_game}
use multiplay_chess.Handlers.Bounds.{length-take_le, IsBounded, save_current_game-IsBounded}
use multiplay_chess.Handlers.Fits.{still_texts, same-IsClient}
use multiplay_chess.Connection.{start_matching, cancel_matching, send_resign_request}
use multiplay_chess.Connection.Link.{still}
use multiplay_chess.Connection.Bounds.{
  start_matching-Keeps, cancel_matching-Keeps, send_resign_request-Keeps,
}
use multiplay_chess.Input.{
  Desk, Moment, Pressed, arrow_up, arrow_down, arrow_left, arrow_right, backspace, byte,
  with_client, ask, handle_keyboard_board_input,
}
use multiplay_chess.Input.Chat.{enable_chat_input, disable_chat_input, handle_chat_input}
use multiplay_chess.Screens.{
  App, Round, on_desk, go_to_screen, quit, show_resign_dialog, confirm_resign,
  handle_resign_dialog_input, get_username_dialog, main_key, matching_key, save_game, enter_key,
  game_menu, game_key, screen_key,
}
use multiplay_chess.Screens.DeskFits.{
  Kept, after-Kept, quiet-Kept, told-Kept, Fine, Finest, enable-Kept, disable-Kept, keyboard-Fine,
  chat-Fine,
}

module _ (c0 : ClientState) where
  -- The client behind a step of the loop.
  abbrev pub Well : App → Type 0
  Well a = Kept c0 a.desk.client

  named-Kept : (name : Text) (x : ClientState) → Kept c0 x → Kept c0 (get_username_dialog name x).1
  unfolding get_username_dialog
  named-Kept name x (link, k) =
      if-Holds (λ (r : Bool × ClientState). Kept c0 r.1) {x = (false, x)}
        {y = (true, record x { username = take 31 name })} (is_empty name) (link, k)
        (
          link,
          record {
            bounded = k.bounded;
            title_fits = k.title_fits;
            resign_fits = k.resign_fits;
            end_fits = k.end_fits;
            name_fits = length-take_le 31 name;
            lost_fits = k.lost_fits;
            line_size = k.line_size;
            line_low = k.line_low;
            line_high = k.line_high;
          },
        )

  main_key-Well : (r : Round) (b : ℕ) (a : App) → Well a → Well (main_key r b a)
  unfolding main_key
  main_key-Well r b a k =
      let (is_named, c) = get_username_dialog r.name a.desk.client in
      let named = named-Kept r.name a.desk.client k in
      let asked = ask (start_matching r.moment.now r.moment.sent c) (with_client c a.desk) in
      let started : Fine c0 asked =
        after-Kept c0 c (start_matching r.moment.now r.moment.sent c).client named
          (start_matching-Keeps c named.1 r.moment.now r.moment.sent) in
      let searching : App = record a { desk = asked; prev_screen = screen_matching } in
      let still_there = on_desk (with_client c) a in
      let others = if (b == b'3') || (b == b'q') || (b == b'Q') then quit a else a in
      if-Holds Well {x = if is_named then searching else still_there} {y = others} (b == b'1')
        (if-Holds Well {x = searching} {y = still_there} is_named started named)
        (if-Holds Well {x = quit a} {y = a} ((b == b'3') || (b == b'q') || (b == b'Q')) k k)

  matching_key-Well : (b : ℕ) (a : App) → Well a → Well (matching_key b a)
  unfolding matching_key
  matching_key-Well b a k =
      let c = a.desk.client in
      let back : App = record a {
        desk = ask (cancel_matching c) a.desk;
        prev_screen = screen_main;
      } in
      if-Holds Well {x = back} {y = a} ((b == 27) || (b == b'c') || (b == b'C'))
        (after-Kept c0 c (cancel_matching c).client k (cancel_matching-Keeps c k.1)) k

  pub game-Kept :
      (x : ClientState) (s : GameState)
      → Kept c0 x
      → IsBounded s
      → Kept c0 (record x { game_state = s })
  game-Kept x s k b =
      after-Kept c0 x (record x { game_state = s }) k
        (still x, same-IsClient (record x { game_state = s }) k.1 b (still_texts x))

  save_game-Well : (r : Round) (a : App) → Well a → Well (save_game r a)
  unfolding save_game
  save_game-Well r a k =
      game-Kept a.desk.client (save_current_game r.disk a.desk.client.game_state).1 k
        (save_current_game-IsBounded k.1.bounded r.disk)

  enter_key-Fine : (m : Moment) (d : Desk) → Fine c0 d → Fine c0 (enter_key m d)
  enter_key-Fine m d k =
      let opened = with_client (enable_chat_input d.client) d in
      if-Holds (Fine c0) {x = handle_chat_input m (byte b'\n') d}
        {y = if d.cursor_mode then d else opened} d.client.chat_input_mode
        (chat-Fine c0 m (byte b'\n') d k)
        (if-Holds (Fine c0) {x = d} {y = opened} d.cursor_mode k (enable-Kept c0 d.client k))

  asking-Kept :
      (x : ClientState) (b : Bool) → Kept c0 x → Kept c0 (record x { resign_dialog_active = b })
  asking-Kept x b k =
      quiet-Kept c0 x (record x { resign_dialog_active = b }) refl (still_texts x) (still x) k

  confirm-Fine : (m : Moment) (d : Desk) → Fine c0 d → Fine c0 (confirm_resign m d)
  unfolding confirm_resign
  confirm-Fine m d k =
      let c : ClientState = record d.client { resign_dialog_active = false } in
      let kc = asking-Kept d.client false k in
      let asked = send_resign_request m.now m.sent c in
      let text =
        if asked.result ==ℤ pos 0
        then codes "Resignation request sent."
        else codes "Failed to send resignation request." in
      told-Kept c0 m.now (codes "System") text asked.client
        (after-Kept c0 c asked.client kc (send_resign_request-Keeps c kc.1 m.now m.sent))

  resign_key-Fine :
      (m : Moment) (ch : Pressed) (d : Desk)
      → Fine c0 d
      → Finest c0 (handle_resign_dialog_input m ch d)
  unfolding handle_resign_dialog_input
  resign_key-Fine m arrow_up d k = k
  resign_key-Fine m arrow_down d k = k
  resign_key-Fine m arrow_left d k = k
  resign_key-Fine m arrow_right d k = k
  resign_key-Fine m backspace d k = k
  resign_key-Fine m (byte b) d k =
      let kept : Bool × Desk =
        (true, with_client (record d.client { resign_dialog_active = false }) d) in
      let other : Bool × Desk = (false, d) in
      if-Holds (Finest c0) {x = (true, confirm_resign m d)}
        {y = if (b == b'n') || (b == b'N') || (b == 27) then kept else other}
        ((b == b'y') || (b == b'Y')) (confirm-Fine m d k)
        (if-Holds (Finest c0) {x = kept} {y = other} ((b == b'n') || (b == b'N') || (b == 27))
          (asking-Kept d.client false k) k)

  chat_menu-Well :
      (r : Round) (ch : Pressed) (a : App)
      → Well a
      → Well
          (if a.desk.client.chat_input_mode then on_desk (handle_chat_input r.moment ch) a else a)
  chat_menu-Well r ch a k =
      if-Holds Well {x = on_desk (handle_chat_input r.moment ch) a} {y = a}
        a.desk.client.chat_input_mode (chat-Fine c0 r.moment ch a.desk k) k

  screen-Kept :
      (x : ClientState) (s : Screen) → Kept c0 x → Kept c0 (record x { current_screen = s })
  screen-Kept x s k =
      quiet-Kept c0 x (record x { current_screen = s }) refl (still_texts x) (still x) k

  game_menu-Well : (r : Round) (ch : Pressed) (a : App) → Well a → Well (game_menu r ch a)
  unfolding game_menu show_resign_dialog
  game_menu-Well r arrow_up a k = chat_menu-Well r arrow_up a k
  game_menu-Well r arrow_down a k = chat_menu-Well r arrow_down a k
  game_menu-Well r arrow_left a k = chat_menu-Well r arrow_left a k
  game_menu-Well r arrow_right a k = chat_menu-Well r arrow_right a k
  game_menu-Well r backspace a k = chat_menu-Well r backspace a k
  game_menu-Well r (byte b) a k =
      let m = r.moment in
      let c = a.desk.client in
      let chat = if c.chat_input_mode then on_desk (handle_chat_input m (byte b)) a else a in
      let entered = if (b == b'\n') || (b == b'\r') then on_desk (enter_key m) a else chat in
      let closed =
        if c.chat_input_mode then on_desk (with_client (disable_chat_input c)) a else a in
      let escaped = if b == 27 then closed else entered in
      let left =
        if (b == b'4') || (b == b'q') || (b == b'Q') then go_to_screen screen_main a else escaped in
      let saved = if b == b'3' then save_game r a else left in
      let offer = add_chat_message_safe m.now c.username (codes "offers a draw.") c in
      let offered = if b == b'2' then on_desk (with_client offer) a else saved in
      let asked = on_desk (with_client (show_resign_dialog c)) a in
      if-Holds Well {x = if c.resign_dialog_active then a else asked} {y = offered} (b == b'1')
        (if-Holds Well {x = a} {y = asked} c.resign_dialog_active k (asking-Kept c true k))
        (if-Holds Well {x = on_desk (with_client offer) a} {y = saved} (b == b'2')
          (told-Kept c0 m.now c.username (codes "offers a draw.") c k)
          (if-Holds Well {x = save_game r a} {y = left} (b == b'3') (save_game-Well r a k) (
            if-Holds Well {x = go_to_screen screen_main a} {y = escaped}
              ((b == b'4') || (b == b'q') || (b == b'Q')) (screen-Kept c screen_main k)
              (if-Holds Well {x = closed} {y = entered} (b == 27)
                (if-Holds Well {x = on_desk (with_client (disable_chat_input c)) a} {y = a}
                  c.chat_input_mode (disable-Kept c0 c k) k)
                (if-Holds Well {x = on_desk (enter_key m) a} {y = chat}
                  ((b == b'\n') || (b == b'\r')) (enter_key-Fine m a.desk k)
                  (chat_menu-Well r (byte b) a k))))))

  game_key-Well : (r : Round) (ch : Pressed) (a : App) → Well a → Well (game_key r ch a)
  unfolding game_key
  game_key-Well r ch a k =
      let c = a.desk.client in
      let (used, d) = handle_keyboard_board_input r.moment ch a.desk in
      let moved : App = record a { desk = d } in
      let pressed = keyboard-Fine c0 r.moment ch a.desk k in
      let resigned = on_desk (λ e. (handle_resign_dialog_input r.moment ch e).1) a in
      let played = if used then moved else game_menu r ch moved in
      if-Holds Well {x = resigned} {y = if c.chat_input_mode then game_menu r ch a else played}
        c.resign_dialog_active (resign_key-Fine r.moment ch a.desk k)
        (if-Holds Well {x = game_menu r ch a} {y = played} c.chat_input_mode
          (game_menu-Well r ch a k)
          (if-Holds Well {x = moved} {y = game_menu r ch moved} used pressed
            (game_menu-Well r ch moved pressed)))

  pub screen_key-Well :
      (r : Round) (ch : Pressed) (s : Screen) (a : App) → Well a → Well (screen_key r ch s a)
  unfolding screen_key
  screen_key-Well r ch screen_game a k = game_key-Well r ch a k
  screen_key-Well r (byte b) screen_main a k = main_key-Well r b a k
  screen_key-Well r (byte b) screen_matching a k = matching_key-Well b a k
  screen_key-Well r arrow_up screen_main a k = k
  screen_key-Well r arrow_down screen_main a k = k
  screen_key-Well r arrow_left screen_main a k = k
  screen_key-Well r arrow_right screen_main a k = k
  screen_key-Well r backspace screen_main a k = k
  screen_key-Well r arrow_up screen_matching a k = k
  screen_key-Well r arrow_down screen_matching a k = k
  screen_key-Well r arrow_left screen_matching a k = k
  screen_key-Well r arrow_right screen_matching a k = k
  screen_key-Well r backspace screen_matching a k = k
