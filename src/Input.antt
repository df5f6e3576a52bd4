-- ===== src/Input.antt =====
-- What the player does on the game screen (client/ui/input.c): clicks, the cursor, typed moves. A
-- click that hits the board is on its squares; the drawing is left out.
pub mod Chat
pub mod Line
pub mod Typing
pub mod Marks
pub mod Places
pub mod Within
pub mod Requests
mod Tests
use package.multiplay_chess.Prelude.{
  ℕ, ◌+◌, ◌-◌, ◌*◌, ◌==◌, not, ◌&&◌, ◌||◌, Bool, true, false, if◌then◌else◌, Option, none, some,
  List, [], ◌∷◌, ◌++◌, ℤ, pos, minus_one, ◌+ℤ◌, ◌-ℤ◌, div_ℤ, leb_ℤ, ltb_ℤ, ◌==ℤ◌, Text, codes,
}
use package.multiplay_chess.Piece.{Team, white, black, team_eq}
use package.multiplay_chess.Game.{Square, Game, is_null, in_board}
use package.multiplay_chess.Coordinate.{format_chess_coordinate}
use package.multiplay_chess.Protocol.{ClientMessage}
use package.multiplay_chess.Client.{off_range}
use package.multiplay_chess.ClientState.{Screen, screen_game, ClientState, add_chat_message_safe}
use package.multiplay_chess.Connection.{on_game_screen, Asked, send_move_request}

-- Where a square of the board is displayed, and back: White looks from below, Black from above.
abbrev pub board_square : Team → ℤ → ℤ → ℤ × ℤ
board_square black display_x display_y = (pos 7 -ℤ display_x, display_y)
board_square white display_x display_y = (display_x, pos 7 -ℤ display_y)

-- `none` where the C function returns false.
unfoldable pub coord_to_board_pos : Team → ℤ → ℤ → Option (ℤ × ℤ)
coord_to_board_pos local_team screen_x screen_y =
    let rel_x = screen_x -ℤ pos 2 in
    let rel_y = screen_y -ℤ pos 2 in
    let chess_rel_x = rel_x -ℤ pos 4 in
    let chess_rel_y = rel_y -ℤ pos 2 in
    let display_x = div_ℤ chess_rel_x (pos 7) in
    let display_y = div_ℤ chess_rel_y (pos 3) in
    let (board_x, board_y) = board_square local_team display_x display_y in
    if ltb_ℤ rel_x (pos 4) || ltb_ℤ rel_y (pos 2)
    then none
    else if leb_ℤ (pos 56) chess_rel_x || leb_ℤ (pos 24) chess_rel_y
    then none
    else if in_board display_x display_y && in_board board_x board_y
    then some (board_x, board_y)
    else none

-- The client with the cursor of input.c and the requests it has handed over, the latest first.
pub record Desk : Type 0 where
  pub client : ClientState
  pub cursor_x : ℤ
  pub cursor_y : ℤ
  pub cursor_mode : Bool
  pub requests : List ClientMessage

-- What an input meets: the clock, and the result of sending.
pub record Moment : Type 0 where
  pub now : ℤ
  pub sent : ℤ

abbrev pub with_client : ClientState → Desk → Desk
with_client c d = record d { client = c }

abbrev pub says : Moment → Text → Desk → Desk
says m text d = record d { client = add_chat_message_safe m.now (codes "System") text d.client }

abbrev pub handed : Option ClientMessage → List ClientMessage → List ClientMessage
handed none requests = requests
handed (some r) requests = r ∷ requests

-- The request of an operation, with the state behind it.
abbrev pub ask : Asked → Desk → Desk
ask a d = record d { client = a.client; requests = handed a.request d.requests }

-- A piece that stands.
abbrev pub stands : Square → Bool
stands s = not (is_null s.piece) && not s.is_dead

abbrev pub turn_text : Team → Text
turn_text white = codes "Not your turn! Current: White"
turn_text black = codes "Not your turn! Current: Black"

unfoldable pub select_piece : Moment → ℤ → ℤ → Desk → Desk
select_piece m board_x board_y d =
    let c = d.client in
    let s = c.game_state in
    let square = s.game.board board_y board_x in
    if not (stands square)
    then d
    else if not (team_eq s.game.side_to_move s.local_team)
    then says m (turn_text s.game.side_to_move) d
    else if not (team_eq square.team s.local_team)
    then says m (codes "That's not your piece!") d
    else says m (codes "Piece selected. Click destination.") (
        with_client (record c { selected_x = board_x; selected_y = board_y; piece_selected = true })
          d)

abbrev pub unselected : ClientState → ClientState
unselected c = record c { piece_selected = false }

unfoldable pub request_click : Moment → ℤ → ℤ → Desk → Desk
request_click m board_x board_y d =
    let c = d.client in
    let a =
      send_move_request m.now m.sent (some (format_chess_coordinate c.selected_x c.selected_y))
        (some (format_chess_coordinate board_x board_y)) c in
    let asked = ask a d in
    if a.result ==ℤ pos 0
    then with_client (unselected asked.client) asked
    else says m (codes "Failed to send move request.") asked

unfoldable pub place_piece : Moment → ℤ → ℤ → Desk → Desk
place_piece m board_x board_y d =
    let c = d.client in
    if (board_x ==ℤ c.selected_x) && (board_y ==ℤ c.selected_y)
    then says m (codes "Selection cancelled.") (with_client (unselected c) d)
    else if not (in_board c.selected_x c.selected_y)
    then says m (codes "Invalid selection, cancelled.") (with_client (unselected c) d)
    else request_click m board_x board_y d

unfoldable pub handle_board_click : Moment → ℤ → ℤ → Desk → Desk
handle_board_click m board_x board_y d =
    if d.client.piece_selected
    then place_piece m board_x board_y d
    else select_piece m board_x board_y d

unfoldable pub click_at : Moment → Option (ℤ × ℤ) → Desk → Desk
click_at m none d = d
click_at m (some (board_x, board_y)) d = handle_board_click m board_x board_y d

-- A mouse event: its place, and whether the first button was clicked.
unfoldable pub handle_mouse_input : Moment → ℤ → ℤ → Bool → Desk → Desk
handle_mouse_input m x y clicked d =
    if clicked && on_game_screen d.client.current_screen
    then click_at m (coord_to_board_pos d.client.game_state.local_team x y) d
    else d

unfoldable pub enable_cursor_mode : Desk → Desk
enable_cursor_mode d = record d { cursor_x = pos 0; cursor_y = pos 0; cursor_mode = true }

unfoldable pub disable_cursor_mode : Desk → Desk
disable_cursor_mode d = record d { cursor_mode = false }

-- A place outside of the board is given as the corner.
unfoldable pub get_cursor_position : Desk → ℤ × ℤ
get_cursor_position d =
    if in_board d.cursor_x d.cursor_y then (d.cursor_x, d.cursor_y) else (pos 0, pos 0)

-- A key: the keys of ncurses that the code names, or a byte.
pub data Pressed : Type 0 where
  arrow_up arrow_down arrow_left arrow_right backspace : Pressed
  byte : ℕ → Pressed

-- A mouse event or a key.
pub data UserInput : Type 0 where
  mouse : ℤ → ℤ → Bool → UserInput
  key : Pressed → UserInput

abbrev pub in_cursor_mode : Desk → Desk
in_cursor_mode d = if d.cursor_mode then d else enable_cursor_mode d

abbrev pub step_down : ℤ → ℤ
step_down z = if ltb_ℤ (pos 0) z then z -ℤ pos 1 else z

abbrev pub step_up : ℤ → ℤ
step_up z = if ltb_ℤ z (pos 7) then z +ℤ pos 1 else z

abbrev pub press_square : Moment → Desk → Bool × Desk
press_square m d =
    let (x, y) = board_square d.client.game_state.local_team d.cursor_x d.cursor_y in
    if d.cursor_mode then (true, handle_board_click m x y d) else (false, d)

abbrev pub press_escape : Desk → Desk
press_escape d =
    if d.client.piece_selected
    then with_client (unselected d.client) d
    else if d.cursor_mode
    then disable_cursor_mode d
    else d

-- The keys on the game screen; the answer says whether the key is used up.
unfoldable pub board_key : Moment → Pressed → Desk → Bool × Desk
board_key m arrow_up d =
    let e = in_cursor_mode d in (true, record e { cursor_y = step_down e.cursor_y })
board_key m arrow_down d =
    let e = in_cursor_mode d in (true, record e { cursor_y = step_up e.cursor_y })
board_key m arrow_left d =
    let e = in_cursor_mode d in (true, record e { cursor_x = step_down e.cursor_x })
board_key m arrow_right d =
    let e = in_cursor_mode d in (true, record e { cursor_x = step_up e.cursor_x })
board_key m backspace d = (false, d)
board_key m (byte c) d =
    if (c == b' ') || (c == b'\n') || (c == b'\r')
    then press_square m d
    else if c == 27
    then (true, press_escape d)
    else (false, d)

unfoldable pub handle_keyboard_board_input : Moment → Pressed → Desk → Bool × Desk
handle_keyboard_board_input m ch d =
    if on_game_screen d.client.current_screen then board_key m ch d else (false, d)

-- The four bytes of a typed move.
unfoldable pub typed_move : Moment → ℕ → ℕ → ℕ → ℕ → Desk → Bool × Desk
typed_move m a b a' b' d =
    let c = d.client in
    let g = c.game_state.game in
    let from_x = pos a -ℤ pos b'a' in
    let from_y = pos b -ℤ pos b'1' in
    let to_x = pos a' -ℤ pos b'a' in
    let to_y = pos b' -ℤ pos b'1' in
    let asked = send_move_request m.now m.sent (some (a ∷ b ∷ [])) (some (a' ∷ b' ∷ [])) c in
    if off_range from_x || off_range from_y || off_range to_x || off_range to_y
    then (false, says m (codes "Invalid coordinates") d)
    else if not (stands (g.board from_y from_x))
    then (false, says m (codes "No piece at source position") d)
    else if not (team_eq g.side_to_move c.game_state.local_team)
    then (false, says m (codes "Not your turn!") d)
    else if asked.result ==ℤ pos 0
    then (true, ask asked d)
    else (false, says m (codes "Failed to send move request.") (ask asked d))

abbrev pub typed_notation : Moment → Text → Desk → Bool × Desk
typed_notation m (a ∷ b ∷ a' ∷ b' ∷ []) d = typed_move m a b a' b' d
typed_notation m _ d = (false, says m (codes "Use format: e2e4 (from-to)") d)

unfoldable pub handle_chess_notation : Moment → Text → Desk → Bool × Desk
handle_chess_notation m notation d =
    if on_game_screen d.client.current_screen then typed_notation m notation d else (false, d)
