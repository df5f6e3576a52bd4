-- ===== src/Input/Requests.antt =====
-- What clicks ask of the server (client/ui/input.c, client/client_network.c).
use mathlib.Core.Path.{subst}
use multiplay_chess.Prelude.{
  ◌≡◌, refl, sym, ap, ◌∙◌, not, ◌&&◌, true, false, if-True, if-False, some, ◌∷◌, ℤ, pos, ◌≤ℤ◌,
  ltb_ℤ, ◌==ℤ◌, codes, arith,
}
use multiplay_chess.Piece.{team_eq}
use multiplay_chess.Game.{in_board}
use multiplay_chess.Protocol.{ClientMessage, move}
use multiplay_chess.Coordinate.{format_chess_coordinate, parse-format}
use multiplay_chess.ClientState.{ClientState, add_chat_message_safe}
use multiplay_chess.Connection.{Asked, request_move, send_move_request}
use multiplay_chess.Handlers.Bounds.{told-game}
use multiplay_chess.Input.{
  Desk, Moment, with_client, says, handed, stands, select_piece, request_click, place_piece,
  handle_board_click,
}

-- The request for a move between two squares.
abbrev pub move_between : ℤ → ℤ → ℤ → ℤ → ClientMessage
move_between x y x' y' =
    move (some (record { from = format_chess_coordinate x y; to = format_chess_coordinate x' y' }))

-- A connected client asks for a move between two squares of the board, and it is sent.
abbrev Sends : ClientState → ClientMessage → Asked → Type 0
Sends c r a = (a.request ≡ some r) × (a.result ≡ pos 0) × (a.client ≡ c)

send_move_request-Sends :
    (now sent x y x' y' : ℤ) (c : ClientState)
    → in_board x y ≡ true
    → in_board x' y' ≡ true
    → c.connected ≡ true
    → pos 0 ≤ℤ sent
    → Sends c (move_between x y x' y') (
        send_move_request now sent
          (some (format_chess_coordinate x y))
          (some (format_chess_coordinate x' y'))
          c)
unfolding send_move_request request_move
send_move_request-Sends now sent x y x' y' c h h' on ok =
    let read = parse-format x y h in
    let read' = parse-format x' y' h' in
    if-False (Sends c (move_between x y x' y')) _ _ (not c.connected) (ap not on) (
      rw (read, request_move)
        (rw read' (
          if-False (Sends c (move_between x y x' y')) _ _ (ltb_ℤ sent (pos 0)) (ground arith)
            (refl, refl, refl))))

-- The desk behind a click that selects.
abbrev pub picked : Moment → ℤ → ℤ → Desk → Desk
picked m x y d =
    says m (codes "Piece selected. Click destination.")
      (with_client (record d.client { selected_x = x; selected_y = y; piece_selected = true }) d)

first_click :
    (m : Moment) (x y : ℤ) (d : Desk)
    → d.client.piece_selected ≡ false
    → stands (d.client.game_state.game.board y x) ≡ true
    → team_eq d.client.game_state.game.side_to_move d.client.game_state.local_team ≡ true
    → team_eq (d.client.game_state.game.board y x).team d.client.game_state.local_team ≡ true
    → handle_board_click m x y d ≡ picked m x y d
unfolding handle_board_click select_piece
first_click m x y d none_yet piece turn own =
    let s = d.client.game_state in
    let is = λ (e : Desk). e ≡ picked m x y d in
    if-False is _ _ d.client.piece_selected none_yet (
      if-False is _ _ (not (stands (s.game.board y x))) (ap not piece) (
        if-False is _ _ (not (team_eq s.game.side_to_move s.local_team)) (ap not turn)
          (if-False is _ _ (not (team_eq (s.game.board y x).team s.local_team)) (ap not own) refl)))

-- On the player's turn, with nothing selected and a connection that sends: a click on a piece of his
-- and then one on another square of the board ask the server for exactly the move between the two
-- squares; nothing is selected then, and the position stays.
pub two_clicks :
    (m m' : Moment) (x y x' y' : ℤ) (d : Desk)
    → in_board x y ≡ true
    → in_board x' y' ≡ true
    → d.client.piece_selected ≡ false
    → stands (d.client.game_state.game.board y x) ≡ true
    → team_eq d.client.game_state.game.side_to_move d.client.game_state.local_team ≡ true
    → team_eq (d.client.game_state.game.board y x).team d.client.game_state.local_team ≡ true
    → ((x' ==ℤ x) && (y' ==ℤ y)) ≡ false
    → d.client.connected ≡ true
    → pos 0 ≤ℤ m'.sent
    → ((handle_board_click m' x' y' (handle_board_click m x y d)).requests
        ≡ move_between x y x' y' ∷ d.requests)
      × ((handle_board_click m' x' y' (handle_board_click m x y d)).client.piece_selected ≡ false)
      × ((handle_board_click m' x' y' (handle_board_click m x y d)).client.game_state.game
          ≡ d.client.game_state.game)
unfolding handle_board_click place_piece request_click add_chat_message_safe
two_clicks m m' x y x' y' d h h' none_yet piece turn own other on ok =
    let Asks = λ (e : Desk).
      (e.requests ≡ move_between x y x' y' ∷ d.requests)
      × (e.client.piece_selected ≡ false)
      × (e.client.game_state.game ≡ d.client.game_state.game) in
    let c = (picked m x y d).client in
    let (asked, good, same) = send_move_request-Sends m'.now m'.sent x y x' y' c h h' on ok in
    let second : Asks (handle_board_click m' x' y' (picked m x y d)) =
      if-False Asks _ _ ((x' ==ℤ x) && (y' ==ℤ y)) other (
        if-False Asks _ _ (not (in_board x y)) (ap not h) (
          if-True Asks _ _ _ (ap (λ z. z ==ℤ pos 0) good) (
            ap (λ r. handed r d.requests) asked,
            refl,
            ap (λ b. b.game_state.game) same
                ∙ told-game m.now _ _
                    (record d.client { selected_x = x; selected_y = y; piece_selected = true }),
          ))) in
    subst (λ e. Asks (handle_board_click m' x' y' e))
      (sym (first_click m x y d none_yet piece turn own)) second
