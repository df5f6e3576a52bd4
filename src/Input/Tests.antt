-- ===== src/Input/Tests.antt =====
-- Runs of the input of the game screen (client/ui/input.c, client/ui/chat.c).
use multiplay_chess.Prelude.{◌≡◌, refl, ◌&&◌, not, true, false, some, [], ◌∷◌, pos, inl, arith}
use multiplay_chess.Piece.{white, black}
use multiplay_chess.Client.{init_game, init_game_state, reset_game_to_starting_position}
use multiplay_chess.ClientState.{screen_game, init_client_state}
use multiplay_chess.Server.Scenario.{running_server}
use multiplay_chess.Input.{
  Desk, Moment, coord_to_board_pos, handle_board_click, stands, arrow_right, mouse, key,
}
use multiplay_chess.Input.Places.{cell, coord_to_board_pos-cell}
use multiplay_chess.Input.Within.{IsDesk, board_inputs, board_inputs-IsDesk}
use multiplay_chess.Input.Requests.{move_between, two_clicks}
use multiplay_chess.Input.Marks.{
  may_go, enemy, calculate_possible_moves, calculate_possible_moves_lem,
}

abbrev moment : Moment
moment = record { now = pos 100; sent = pos 12 }

-- A connected client at the start of its game, as White.
abbrev desk : Desk
desk = record {
  client = record init_client_state { connected = true; current_screen = screen_game };
  cursor_x = pos 0;
  cursor_y = pos 0;
  cursor_mode = false;
  requests = [];
}

coord_to_board_pos-cell_example :
    coord_to_board_pos black (pos 41) (pos 9)
    ≡ some ((cell black 1 5).actual_col, (cell black 1 5).actual_row)
unfolding cell
coord_to_board_pos-cell_example =
    coord_to_board_pos-cell black 1 5 0 2 (omega arith) (omega arith) (omega arith) (omega arith)

desk-IsDesk : IsDesk desk
unfolding init_client_state
desk-IsDesk = record { cursor = refl; selected = inl refl }

board_inputs-IsDesk_example :
    IsDesk
      (board_inputs ((moment, key arrow_right) ∷ (moment, mouse (pos 10) (pos 10) true) ∷ []) desk)
board_inputs-IsDesk_example =
    board_inputs-IsDesk ((moment, key arrow_right) ∷ (moment, mouse (pos 10) (pos 10) true) ∷ [])
      desk desk-IsDesk

pawn_stands : stands (desk.client.game_state.game.board (pos 1) (pos 4)) ≡ true
unfolding running_server init_client_state init_game_state init_game reset_game_to_starting_position
pawn_stands = refl

turn :
    (desk.client.game_state.game.side_to_move ≡ white)
    × (desk.client.game_state.local_team ≡ white)
    × ((desk.client.game_state.game.board (pos 1) (pos 4)).team ≡ white)
unfolding running_server init_client_state init_game_state init_game reset_game_to_starting_position
turn = (refl, refl, refl)

-- e2 and then e4.
two_clicks_example :
    ((handle_board_click moment
        (pos 4)
        (pos 3)
        (handle_board_click moment (pos 4) (pos 1) desk)).requests
      ≡ move_between (pos 4) (pos 1) (pos 4) (pos 3) ∷ desk.requests)
    × ((handle_board_click moment
          (pos 4)
          (pos 3)
          (handle_board_click moment (pos 4) (pos 1) desk)).client.piece_selected
        ≡ false)
    × ((handle_board_click moment
          (pos 4)
          (pos 3)
          (handle_board_click moment (pos 4) (pos 1) desk)).client.game_state.game
        ≡ desk.client.game_state.game)
unfolding running_server init_client_state init_game_state init_game reset_game_to_starting_position
two_clicks_example =
    two_clicks moment moment (pos 4) (pos 1) (pos 4) (pos 3) desk refl refl refl pawn_stands refl
      refl refl refl (omega arith)

calculate_possible_moves_lem_example :
    ((calculate_possible_moves (pos 4) (pos 1) true desk.client.game_state).capture_moves
        (pos 3)
        (pos 4)
      ≡ (may_go desk.client.game_state.game (pos 4) (pos 1) (pos 4) (pos 3)
          && enemy desk.client.game_state.game (pos 4) (pos 1) (pos 4) (pos 3)))
    × ((calculate_possible_moves (pos 4) (pos 1) true desk.client.game_state).possible_moves
          (pos 3)
          (pos 4)
        ≡ (may_go desk.client.game_state.game (pos 4) (pos 1) (pos 4) (pos 3)
            && not (enemy desk.client.game_state.game (pos 4) (pos 1) (pos 4) (pos 3))))
calculate_possible_moves_lem_example =
    calculate_possible_moves_lem (pos 4) (pos 1) (pos 4) (pos 3) desk.client.game_state pawn_stands
      refl
