-- ===== src/Input/Within.antt =====
-- The places of the cursor and of the selection (client/ui/input.c).

use multiplay_chess.Prelude.{
  ◌≡◌, ◌⊎◌, refl, not, ◌==◌, ◌&&◌, ◌||◌, Bool, Option-cases, true, false, inl, inr, if-Holds,
  Option, none, some, List, [], ◌∷◌, ℤ, pos, +ℤ_parts, -ℤ_parts, ltb_ℤ, ◌==ℤ◌, Text, arith,
}
use multiplay_chess.Piece.{Team, white, black, team_eq}
use multiplay_chess.Game.{in_board}
use multiplay_chess.Coordinate.{parse_chess_coordinate, format_chess_coordinate}
use multiplay_chess.ClientState.{ClientState, add_chat_message_safe}
use multiplay_chess.Connection.{Asked, on_game_screen, request_move, send_move_request}
use multiplay_chess.Input.{
  board_square, coord_to_board_pos, Desk, Moment, with_client, says, ask, stands, select_piece,
  unselected, request_click, place_piece, handle_board_click, click_at, handle_mouse_input,
  enable_cursor_mode, disable_cursor_mode, Pressed, arrow_up, arrow_down, arrow_left, arrow_right,
  backspace, byte, in_cursor_mode, step_down, step_up, press_square, press_escape, board_key,
  UserInput, mouse, key, handle_keyboard_board_input,
}

-- The cursor is on the board, and so is the selected square where there is one.
pub record IsDesk (d : Desk) : Type 0 where
  pub cursor : in_board d.cursor_x d.cursor_y ≡ true
  pub selected :
      (d.client.piece_selected ≡ false) ⊎ (in_board d.client.selected_x d.client.selected_y ≡ true)

-- What leaves cursor and selection alone.
same-IsDesk :
    {d : Desk} (e : Desk)
    → IsDesk d
    → e.cursor_x ≡ d.cursor_x
    → e.cursor_y ≡ d.cursor_y
    → e.client.piece_selected ≡ d.client.piece_selected
    → e.client.selected_x ≡ d.client.selected_x
    → e.client.selected_y ≡ d.client.selected_y
    → IsDesk e
same-IsDesk e k x y p sx sy = record {
  cursor = rw (x, y) k.cursor;
  selected = rw (p, sx, sy) k.selected;
}

says-IsDesk : {d : Desk} (m : Moment) (text : Text) → IsDesk d → IsDesk (says m text d)
unfolding add_chat_message_safe
says-IsDesk m text k = same-IsDesk _ k refl refl refl refl refl

unselected-IsDesk : {d : Desk} → IsDesk d → IsDesk (with_client (unselected d.client) d)
unselected-IsDesk k = record { cursor = k.cursor; selected = inl refl }

select_piece-IsDesk :
    (m : Moment) (x y : ℤ) (d : Desk)
    → in_board x y ≡ true
    → IsDesk d
    → IsDesk (select_piece m x y d)
unfolding select_piece
select_piece-IsDesk m x y d h k =
    if-Holds IsDesk (not (stands (d.client.game_state.game.board y x))) k (
      if-Holds IsDesk
        (not (team_eq d.client.game_state.game.side_to_move d.client.game_state.local_team))
        (says-IsDesk m _ k)
        (if-Holds IsDesk
          (not (team_eq (d.client.game_state.game.board y x).team d.client.game_state.local_team))
          (says-IsDesk m _ k) (says-IsDesk m _ (record { cursor = k.cursor; selected = inr h }))))

-- Sending leaves the selection alone.
abbrev SameSelection : ClientState → ClientState → Type 0
SameSelection d c =
    (d.piece_selected ≡ c.piece_selected)
    × (d.selected_x ≡ c.selected_x)
    × (d.selected_y ≡ c.selected_y)

request_keeps :
    (now sent : ℤ) (from to : Text) (c : ClientState)
    → SameSelection (request_move now sent from to c).client c
unfolding request_move add_chat_message_safe
request_keeps now sent from to c = elim (Option-cases (parse_chess_coordinate from)) [
  | inl unread ↦ rw (unread, request_move) (refl, refl, refl)
  | inr (p, read) ↦ elim (Option-cases (parse_chess_coordinate to)) [
    | inl unread ↦ rw (read, unread, request_move) (refl, refl, refl)
    | inr (q, read') ↦
        rw (read, read', request_move)
          (if-Holds (λ (a : Asked). SameSelection a.client c) (ltb_ℤ sent (pos 0))
            (refl, refl, refl) (refl, refl, refl))
  ]
]

send_keeps :
    (now sent : ℤ) (from to : Text) (c : ClientState)
    → SameSelection (send_move_request now sent (some from) (some to) c).client c
unfolding send_move_request add_chat_message_safe
send_keeps now sent from to c =
    if-Holds (λ (a : Asked). SameSelection a.client c) (not c.connected) (refl, refl, refl)
      (request_keeps now sent from to c)

request_click-IsDesk : (m : Moment) (x y : ℤ) (d : Desk) → IsDesk d → IsDesk (request_click m x y d)
unfolding request_click
request_click-IsDesk m x y d k =
    let c = d.client in
    let from = format_chess_coordinate c.selected_x c.selected_y in
    let to = format_chess_coordinate x y in
    let a = send_move_request m.now m.sent (some from) (some to) c in
    let (p, sx, sy) = send_keeps m.now m.sent from to c in
    let asked = same-IsDesk (ask a d) k refl refl p sx sy in
    if-Holds IsDesk (a.result ==ℤ pos 0) (unselected-IsDesk asked) (says-IsDesk m _ asked)

place_piece-IsDesk : (m : Moment) (x y : ℤ) (d : Desk) → IsDesk d → IsDesk (place_piece m x y d)
unfolding place_piece
place_piece-IsDesk m x y d k =
    if-Holds IsDesk ((x ==ℤ d.client.selected_x) && (y ==ℤ d.client.selected_y))
      (says-IsDesk m _ (unselected-IsDesk k))
      (if-Holds IsDesk (not (in_board d.client.selected_x d.client.selected_y))
        (says-IsDesk m _ (unselected-IsDesk k)) (request_click-IsDesk m x y d k))

handle_board_click-IsDesk :
    (m : Moment) (x y : ℤ) (d : Desk)
    → in_board x y ≡ true
    → IsDesk d
    → IsDesk (handle_board_click m x y d)
unfolding handle_board_click
handle_board_click-IsDesk m x y d h k =
    if-Holds IsDesk d.client.piece_selected (place_piece-IsDesk m x y d k)
      (select_piece-IsDesk m x y d h k)

-- A place on the screen that is taken for a square is one of the board.
coord_to_board_pos-in_board :
    (t : Team) (x y bx by : ℤ) → coord_to_board_pos t x y ≡ some (bx, by) → in_board bx by ≡ true
unfolding coord_to_board_pos
coord_to_board_pos-in_board white x y bx by h = ground arith
coord_to_board_pos-in_board black x y bx by h = ground arith

click_at-IsDesk :
    (m : Moment) (place : Option (ℤ × ℤ)) (d : Desk)
    → ((bx by : ℤ) → place ≡ some (bx, by) → in_board bx by ≡ true)
    → IsDesk d
    → IsDesk (click_at m place d)
unfolding click_at
click_at-IsDesk m none d h k = k
click_at-IsDesk m (some (bx, by)) d h k = handle_board_click-IsDesk m bx by d (h bx by refl) k

handle_mouse_input-IsDesk :
    (m : Moment) (x y : ℤ) (clicked : Bool) (d : Desk)
    → IsDesk d
    → IsDesk (handle_mouse_input m x y clicked d)
unfolding handle_mouse_input
handle_mouse_input-IsDesk m x y clicked d k =
    let t = d.client.game_state.local_team in
    if-Holds IsDesk (clicked && on_game_screen d.client.current_screen)
      (click_at-IsDesk m (coord_to_board_pos t x y) d (coord_to_board_pos-in_board t x y) k) k

in_cursor_mode-IsDesk : (d : Desk) → IsDesk d → IsDesk (in_cursor_mode d)
unfolding enable_cursor_mode
in_cursor_mode-IsDesk d k =
    if-Holds IsDesk d.cursor_mode k (record { cursor = refl; selected = k.selected })

step_within :
    (x y : ℤ)
    → in_board x y ≡ true
    → (in_board (step_down x) y ≡ true)
      × (in_board (step_up x) y ≡ true)
      × (in_board x (step_down y) ≡ true)
      × (in_board x (step_up y) ≡ true)
step_within x y h = (
  ground (arith, -ℤ_parts x (pos 1)),
  ground (arith, +ℤ_parts x (pos 1)),
  ground (arith, -ℤ_parts y (pos 1)),
  ground (arith, +ℤ_parts y (pos 1)),
)

mirrored :
    (t : Team) (x y : ℤ)
    → in_board x y ≡ true
    → in_board (board_square t x y).0 (board_square t x y).1 ≡ true
mirrored white x y h = ground (arith, -ℤ_parts (pos 7) y)
mirrored black x y h = ground (arith, -ℤ_parts (pos 7) x)

press_square-IsDesk : (m : Moment) (d : Desk) → IsDesk d → IsDesk (press_square m d).1
press_square-IsDesk m d k =
    let t = d.client.game_state.local_team in
    if-Holds (λ (r : Bool × Desk). IsDesk r.1) d.cursor_mode
      (handle_board_click-IsDesk m _ _ d (mirrored t d.cursor_x d.cursor_y k.cursor) k) k

press_escape-IsDesk : (d : Desk) → IsDesk d → IsDesk (press_escape d)
unfolding disable_cursor_mode
press_escape-IsDesk d k =
    if-Holds IsDesk d.client.piece_selected (unselected-IsDesk k)
      (if-Holds IsDesk d.cursor_mode (same-IsDesk _ k refl refl refl refl refl) k)

board_key-IsDesk : (m : Moment) (ch : Pressed) (d : Desk) → IsDesk d → IsDesk (board_key m ch d).1
unfolding board_key
board_key-IsDesk m arrow_up d k =
    let e = in_cursor_mode d in
    let k' = in_cursor_mode-IsDesk d k in
    record { cursor = (step_within e.cursor_x e.cursor_y k'.cursor).2; selected = k'.selected }
board_key-IsDesk m arrow_down d k =
    let e = in_cursor_mode d in
    let k' = in_cursor_mode-IsDesk d k in
    record { cursor = (step_within e.cursor_x e.cursor_y k'.cursor).3; selected = k'.selected }
board_key-IsDesk m arrow_left d k =
    let e = in_cursor_mode d in
    let k' = in_cursor_mode-IsDesk d k in
    record { cursor = (step_within e.cursor_x e.cursor_y k'.cursor).0; selected = k'.selected }
board_key-IsDesk m arrow_right d k =
    let e = in_cursor_mode d in
    let k' = in_cursor_mode-IsDesk d k in
    record { cursor = (step_within e.cursor_x e.cursor_y k'.cursor).1; selected = k'.selected }
board_key-IsDesk m backspace d k = k
board_key-IsDesk m (byte c) d k =
    if-Holds (λ (r : Bool × Desk). IsDesk r.1) ((c == b' ') || (c == b'\n') || (c == b'\r'))
      (press_square-IsDesk m d k)
      (if-Holds (λ (r : Bool × Desk). IsDesk r.1) {x = (true, press_escape d)} {y = (false, d)}
        (c == 27) (press_escape-IsDesk d k) k)

unfoldable pub board_inputs : List (Moment × UserInput) → Desk → Desk
board_inputs [] d = d
board_inputs ((m, mouse x y clicked) ∷ inputs) d =
    board_inputs inputs (handle_mouse_input m x y clicked d)
board_inputs ((m, key ch) ∷ inputs) d = board_inputs inputs (handle_keyboard_board_input m ch d).1

-- Whatever is clicked and pressed, at whatever place of the screen: the cursor stays on the board,
-- and a selected square is one of the board, so that no read of the board is out of its bounds.
pub board_inputs-IsDesk :
    (inputs : List (Moment × UserInput)) (d : Desk) → IsDesk d → IsDesk (board_inputs inputs d)
unfolding board_inputs handle_keyboard_board_input
board_inputs-IsDesk [] d k = k
board_inputs-IsDesk ((m, mouse x y clicked) ∷ inputs) d k =
    board_inputs-IsDesk inputs _ (handle_mouse_input-IsDesk m x y clicked d k)
board_inputs-IsDesk ((m, key ch) ∷ inputs) d k =
    board_inputs-IsDesk inputs (handle_keyboard_board_input m ch d).1 (
      if-Holds (λ (r : Bool × Desk). IsDesk r.1) {x = board_key m ch d} {y = (false, d)}
        (on_game_screen d.client.current_screen) (board_key-IsDesk m ch d k) k)
