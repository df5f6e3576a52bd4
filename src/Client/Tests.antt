-- ===== src/Client/Tests.antt =====
-- Runs of the client's copy of a game (client/game_state.c).
use multiplay_chess.Prelude.{◌≡◌, ◌++◌, refl, Bool, true, [], ◌∷◌, pos, ◌+ℤ◌, ◌-ℤ◌, arith, codes}
use multiplay_chess.Piece.{white, deref, get_default_queen}
use multiplay_chess.Game.{put, kill, holds}
use multiplay_chess.Rule.{
  apply_move, is_move_legal, reaches, piece_ok, pawn_ok, is_in_check, find_king, find_square,
  find_rank, is_square_attacked, attacked_from, attacks, ray, apply_piece, board_after, promote,
  set_en_passant, rook_rights, king_rights, castle_rook, move_rook, shift_piece, take_en_passant,
}
use multiplay_chess.Fen.{place, tokens, read_fields, read_field, fen_parse, init_startpos}
use multiplay_chess.Coordinate.{parse_chess_coordinate}
use multiplay_chess.Protocol.{MoveRequest}
use multiplay_chess.Match.{ActiveGame, no_game}
use multiplay_chess.Server.Turn.{Seat}
use multiplay_chess.Server.Outcome.{Accepted}
use multiplay_chess.Client.{
  GameState, init_game_state, init_game, reset_game_to_starting_position, add_chat_message,
  update_game_timer,
}
use multiplay_chess.Client.Chat.{IsChat, shown, latest, cut_message, add_chat_message_lem}
use multiplay_chess.Client.Display.{with_shown, update_game_timer_lem}

-- What a run of the client computes with.
unfoldable running_client : Bool
unfolding put kill holds deref get_default_queen ◌+ℤ◌ ◌-ℤ◌ is_move_legal reaches piece_ok pawn_ok
    is_in_check find_king find_square find_rank is_square_attacked attacked_from attacks ray
    apply_move apply_piece board_after promote set_en_passant rook_rights king_rights castle_rook
    move_rook shift_piece take_en_passant place tokens read_fields read_field fen_parse
    init_startpos parse_chess_coordinate init_game_state init_game reset_game_to_starting_position
running_client = true

abbrev opening : ActiveGame
opening = record no_game { game_state = init_startpos no_game.game_state; is_active = true }

abbrev white_seat : Seat
white_seat = record { player_id = codes "bob"; opponent_fd = pos 5; team = white }

abbrev e4 : MoveRequest
e4 = record { from = codes "e2"; to = codes "e4" }

e4-Accepted : Accepted opening white_seat e4
unfolding running_client
e4-Accepted = record {
  sx = pos 4;
  sy = pos 1;
  dx = pos 4;
  dy = pos 3;
  own_turn = refl;
  reads_from = refl;
  reads_to = refl;
  legal = refl;
}

init_game_state-IsChat : IsChat init_game_state
unfolding running_client
init_game_state-IsChat = record { size = refl; within = omega arith }

add_chat_message_lem_example :
    (shown (add_chat_message (pos 9) (codes "bob") (codes "hi") init_game_state)
      ≡ latest (shown init_game_state) ++ (cut_message (pos 9) (codes "bob") (codes "hi") ∷ []))
    × IsChat (add_chat_message (pos 9) (codes "bob") (codes "hi") init_game_state)
add_chat_message_lem_example =
    add_chat_message_lem (pos 9) (codes "bob") (codes "hi") init_game_state init_game_state-IsChat

abbrev on_display : GameState
unfolding running_client
on_display = record init_game_state { game_in_progress = true; last_timer_update = pos 100 }

update_game_timer_lem_example :
    update_game_timer (pos 103) on_display ≡ with_shown (pos 597) (pos 103) on_display
unfolding running_client
update_game_timer_lem_example =
    update_game_timer_lem (pos 103) on_display 600 3 refl (λ e. ground arith) refl (omega arith)
      refl (omega arith) (omega arith)
