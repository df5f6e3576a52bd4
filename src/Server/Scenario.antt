-- ===== src/Server/Scenario.antt =====
-- A run of the server (server/match_manager.c, server/handlers/*.c): two clients ask for a match, and
-- White moves.
use multiplay_chess.Prelude.{
  ◌≡◌, refl, Bool, true, Option, none, some, get_elem?, pos, ◌+ℤ◌, ◌-ℤ◌, div_ℤ, mod_ℤ, to_int32,
  codes,
}
use multiplay_chess.Piece.{deref, get_default_queen}
use multiplay_chess.Game.{put, kill, holds}
use multiplay_chess.Rule.{
  ray, attacks, attacked_from, is_square_attacked, find_rank, find_square, find_king, is_in_check,
  take_en_passant, shift_piece, move_rook, castle_rook, king_rights, rook_rights, set_en_passant,
  promote, board_after, apply_piece, apply_move, all_between, pawn_ok, castle_ok, step_ok,
  way_clear, slide_along, slide_ok, piece_ok, reaches, is_move_legal, has_move_from, has_move,
  is_checkmate, is_stalemate, is_fifty_move_rule,
}
use multiplay_chess.Fen.{place, tokens, read_fields, read_field, fen_parse, init_startpos}
use multiplay_chess.Coordinate.{parse_chess_coordinate}
use multiplay_chess.Protocol.{MoveRequest, match_game, move}
use multiplay_chess.Network.{Net, send_server_message}
use multiplay_chess.Match.{
  ActiveGame, Readings, cleared, find_slot, decimal_from, generate_game_id, new_game, start_match,
  enqueue, add_named_player, add_player_to_matching, drop_waiting, remove_player_from_matching,
  find_game_by_player_fd, end_game, remove_game, no_game,
}
use multiplay_chess.Match.Clock.{
  tick, charge_white, charge_black, check_games, check_game_timeouts,
  send_timeout_game_end_broadcast,
}
use multiplay_chess.Match.Leave.{handle_player_disconnect}
use multiplay_chess.Server.Session.{
  Server, reply, reply_checked, send_error_response, handle_match_game_message, announce_game,
  answer_match,
}
use multiplay_chess.Server.Turn.{
  send_move_error, send_move_success, verdict, move_message, seat_of, conclude, make_turn, try_move,
  handle_move_message,
}
use multiplay_chess.Server.Dispatch.{dispatch_client_message, report_failure, handle_client_message}
use multiplay_chess.Server.Reach.{Reachable, started, client_step, start_server}

-- What a run of the server computes with.
unfoldable pub running_server : Bool
unfolding put kill holds deref get_default_queen ◌+ℤ◌ ◌-ℤ◌ div_ℤ mod_ℤ to_int32 ray attacks
    attacked_from is_square_attacked find_rank find_square find_king is_in_check take_en_passant
    shift_piece move_rook castle_rook king_rights rook_rights set_en_passant promote board_after
    apply_piece apply_move all_between pawn_ok castle_ok step_ok way_clear slide_along slide_ok
    piece_ok reaches is_move_legal has_move_from has_move is_checkmate is_stalemate
    is_fifty_move_rule place tokens read_fields read_field fen_parse init_startpos
    parse_chess_coordinate send_server_message cleared find_slot decimal_from generate_game_id
    new_game start_match enqueue add_named_player add_player_to_matching drop_waiting
    remove_player_from_matching find_game_by_player_fd end_game remove_game tick charge_white
    charge_black check_games check_game_timeouts send_timeout_game_end_broadcast
    handle_player_disconnect reply reply_checked send_error_response handle_match_game_message
    announce_game answer_match send_move_error send_move_success verdict move_message seat_of
    conclude make_turn try_move handle_move_message dispatch_client_message report_failure
    handle_client_message
running_server = true

abbrev pub all_sent : Net
all_sent out fd msg = pos 1

abbrev pub noon : Readings
noon = record {
  colour_time = pos 43200;
  id_time = pos 43200;
  start_time = pos 43200;
  move_ms = pos 43200000;
  check_ms = pos 43200000;
}

abbrev pub or_else : Option Server → Server → Server
or_else none s = s
or_else (some s) _ = s

-- Ann on descriptor 5 waits; Bob on descriptor 6 is matched with her and has White; he opens.
abbrev pub ann_waits : Server
unfolding running_server
ann_waits =
    or_else
      (handle_client_message all_sent noon (pos 5) (some (match_game (some (codes "ann"))))
        start_server)
      start_server

abbrev pub both_play : Server
unfolding running_server
both_play =
    or_else
      (handle_client_message all_sent noon (pos 6) (some (match_game (some (codes "bob"))))
        ann_waits)
      ann_waits

abbrev pub e2e4 : MoveRequest
e2e4 = record { from = codes "e2"; to = codes "e4" }

abbrev pub bob_moved : Server
unfolding running_server
bob_moved =
    or_else (handle_client_message all_sent noon (pos 6) (some (move (some e2e4))) both_play)
      both_play

pub ann_asks :
    handle_client_message all_sent noon
      (pos 5)
      (some (match_game (some (codes "ann"))))
      start_server
    ≡ some ann_waits
unfolding running_server
ann_asks = refl

pub bob_asks :
    handle_client_message all_sent noon (pos 6) (some (match_game (some (codes "bob")))) ann_waits
    ≡ some both_play
unfolding running_server
bob_asks = refl

pub bob_opens :
    handle_client_message all_sent noon (pos 6) (some (move (some e2e4))) both_play ≡ some bob_moved
unfolding running_server
bob_opens = refl

pub reach_ann : Reachable ann_waits
reach_ann =
    client_step all_sent noon (pos 5) (some (match_game (some (codes "ann")))) start_server
      ann_waits started ann_asks

pub reach_bob : Reachable both_play
reach_bob =
    client_step all_sent noon (pos 6) (some (match_game (some (codes "bob")))) ann_waits both_play
      reach_ann bob_asks

pub reach_move : Reachable bob_moved
reach_move =
    client_step all_sent noon (pos 6) (some (move (some e2e4))) both_play bob_moved reach_bob
      bob_opens

abbrev pub or_no_game : Option ActiveGame → ActiveGame
or_no_game none = no_game
or_no_game (some g) = g

abbrev pub first_game : Server → ActiveGame
first_game s = or_no_game (get_elem? s.manager.active_games 0)
