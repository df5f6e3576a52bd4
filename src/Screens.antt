-- ===== src/Screens.antt =====
-- The main loop of the client (client/main.c) with the dialogs of client/ui/core.c: the screens, the
-- dialogs and what a key does on each. Drawing, the terminal's signals and the replay menu, which
-- has its own loop, are left out.
mod Menu
pub mod Dialogs
pub mod Keys
pub mod Typing
pub mod DeskFits
pub mod KeyFits
pub mod Fits
mod Tests
unfoldable pub use Menu.*
use package.multiplay_chess.Prelude.{
  ℕ, not, ◌&&◌, ◌||◌, ◌==◌, Bool, true, false, if◌then◌else◌, Option, none, some, List, [], ◌∷◌,
  ◌++◌, take, ℤ, pos, ◌-ℤ◌, leb_ℤ, ◌==ℤ◌, Text, is_empty, codes,
}
use package.multiplay_chess.Client.{update_game_timer}
use package.multiplay_chess.Pgn.{Disk, File, save_current_game}
use package.multiplay_chess.ClientState.{
  Screen, screen_main, screen_matching, screen_game, ClientState, add_chat_message_safe,
}
use package.multiplay_chess.Handlers.{written}
use package.multiplay_chess.Connection.{
  on_game_screen, start_matching, cancel_matching, send_resign_request,
}
use package.multiplay_chess.Input.{
  Desk, Moment, with_client, says, ask, Pressed, arrow_up, arrow_down, arrow_left, arrow_right,
  backspace, byte, UserInput, mouse, key, handle_mouse_input, handle_keyboard_board_input,
}
use package.multiplay_chess.Input.Chat.{enable_chat_input, disable_chat_input, handle_chat_input}

abbrev pub acknowledges : Pressed → Bool
acknowledges (byte b) = (b == b'\n') || (b == b'\r') || (b == b' ')
acknowledges _ = false

-- The dialog is closed and the main screen shown, whatever the dialog said.
unfoldable pub acknowledge : ClientState → ClientState
acknowledge c =
    let closed = record c { dialog_active = false; current_screen = screen_main } in
    let s = c.game_state in
    if c.connection_lost
    then record closed { connection_lost = false }
    else if s.opponent_disconnected
    then record closed { game_state = record s { opponent_disconnected = false } }
    else closed

abbrev pub close_dialog : App → App
close_dialog a = record a {
  desk = with_client (acknowledge a.desk.client) a.desk;
  prev_screen = screen_main;
}

abbrev pub dialog_key : UserInput → App → App
dialog_key (key ch) a = if acknowledges ch then close_dialog a else a
dialog_key (mouse _ _ _) a = a

abbrev pub plain_key : Round → UserInput → App → App
plain_key r (key ch) a = screen_key r ch a.desk.client.current_screen a
plain_key r (mouse x y clicked) a = on_desk (handle_mouse_input r.moment x y clicked) a

unfoldable pub take_input : Round → App → App
take_input r a = elim r.input [
  | none ↦ a
  | some i ↦ if a.desk.client.dialog_active then dialog_key i a else plain_key r i a
]

-- The next dialog that waits, if none is open: `none` where there is none to show.
unfoldable pub next_dialog : ClientState → Option ClientState
next_dialog c =
    let opened = record c { dialog_active = true } in
    if c.dialog_active
    then none
    else if c.connection_lost
    then some opened
    else if c.resign_result_dialog_pending
    then some (record opened { resign_result_dialog_pending = false })
    else if c.game_state.opponent_disconnected
    then some opened
    else if c.game_end_dialog_pending
    then some (record opened { game_end_dialog_pending = false })
    else none

abbrev pub is_matching : Screen → Bool
is_matching screen_matching = true
is_matching _ = false

abbrev pub same_screen : Screen → Screen → Bool
same_screen screen_main screen_main = true
same_screen screen_matching screen_matching = true
same_screen screen_game screen_game = true
same_screen _ _ = false

-- The clock of the game once a second, and the flag of the network thread where nothing was drawn.
unfoldable pub refresh_screen : ℤ → Screen → Bool → App → App
refresh_screen now screen needed a =
    let c = a.desk.client in
    let periodic =
      (is_matching screen || on_game_screen screen) && leb_ℤ (pos 1) (now -ℤ a.last_update_time) in
    let timed : ClientState =
      if on_game_screen screen && periodic
      then record c { game_state = update_game_timer now c.game_state }
      else c in
    if periodic
    then record a { desk = with_client timed a.desk; last_update_time = now }
    else if needed
    then a
    else record a { desk = with_client (record c { screen_update_requested = false }) a.desk }

-- Whether the screen is to be drawn again: a new size or screen, the network thread, or a key.
abbrev pub needs_update : Round → App → Bool
needs_update r a =
    let c = a.desk.client in
    let pressed : Bool = elim r.input [ none ↦ false | some _ ↦ not c.dialog_active ] in
    r.resized
    || not (same_screen c.current_screen a.prev_screen)
    || c.screen_update_requested
    || pressed

-- What the round has found out at its start.
abbrev pub noticed : App → App
noticed a = record a {
  desk = with_client (record a.desk.client { screen_update_requested = false }) a.desk;
  prev_screen = a.desk.client.current_screen;
}

-- A dialog that opens ends the round.
unfoldable pub show_next : Round → Screen → Bool → Option ClientState → App → App
show_next r screen needed (some c) a = on_desk (with_client c) a
show_next r screen needed none a = refresh_screen r.moment.now screen needed a

abbrev pub finish_round : Round → Screen → Bool → App → App
finish_round r screen needed a = show_next r screen needed (next_dialog a.desk.client) a

-- A round of the loop.
unfoldable pub loop_round : Round → App → App
loop_round r a =
    let screen = a.desk.client.current_screen in
    let done = take_input r (noticed a) in
    if r.stop_before || r.stop_after
    then quit a
    else if done.running
    then finish_round r screen (needs_update r a) done
    else done

-- Called every second while a match is looked for; it gives up after thirty.
unfoldable pub update_match_timer : ℤ → ClientState → ClientState
update_match_timer now c =
    if is_matching c.current_screen && leb_ℤ (pos 30) (now -ℤ c.match_start_time)
    then record (add_chat_message_safe now (codes "System") (codes "Matchmaking timeout") c) {
      current_screen = screen_main;
    }
    else c
