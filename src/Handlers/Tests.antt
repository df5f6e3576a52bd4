-- ===== src/Handlers/Tests.antt =====
-- Runs of the client on messages of the server (client/handlers/).
use multiplay_chess.Prelude.{◌≡◌, refl, true, false, none, [], ◌∷◌, pos, codes, arith}
use multiplay_chess.Protocol.{
  pt_none, team_unspecified, team_white, end_unknown, MoveBroadcast, ResignBroadcast,
  move_broadcast,
}
use multiplay_chess.Client.{init_game, reset_game_to_starting_position, init_game_state}
use multiplay_chess.Rule.{is_checkmate, is_stalemate}
use multiplay_chess.Pgn.{Disk, pgn_text}
use multiplay_chess.ClientState.{ClientState, init_client_state}
use multiplay_chess.Server.Scenario.{running_server}
use multiplay_chess.Handlers.Notices.{Around}
use multiplay_chess.Handlers.Endings.{handle_resign_broadcast}
use multiplay_chess.Handlers.Dispatch.{dispatch_server_message}
use multiplay_chess.Handlers.Fits.{
  IsClient, init_client_state-IsClient, dispatch_server_message-IsClient,
}
use multiplay_chess.Handlers.Resignation.{handle_resign_broadcast_undecided}

abbrev disk : Disk
disk = record {
  folder_ready = true;
  file_opens = true;
  file_name = codes "replays/game.pgn";
  date = codes "2025.06.01";
}

abbrev around : Around
around = record { now = pos 100; disk = disk; move_timestamp = none }

abbrev e4 : MoveBroadcast
e4 = record {
  game_id = codes "game_1_0";
  player_id = codes "bob";
  from = codes "e2";
  to = codes "e4";
  promotion = pt_none;
  game_ends = false;
  winner_team = team_unspecified;
  end_type = end_unknown;
  is_check = false;
  checked_team = team_unspecified;
  white_time_remaining = pos 595;
  black_time_remaining = pos 600;
}

dispatch_server_message-IsClient_example :
    IsClient (dispatch_server_message around (move_broadcast e4) init_client_state).client
dispatch_server_message-IsClient_example =
    dispatch_server_message-IsClient around (move_broadcast e4) init_client_state-IsClient

abbrev one_move : ClientState
one_move = record init_client_state {
  game_state = record init_game_state { pgn_moves = codes "e2e4" ∷ []; pgn_move_count = pos 1 };
}

no_mate : is_checkmate one_move.game_state.game ≡ false
unfolding running_server init_game_state init_game reset_game_to_starting_position
no_mate = refl

no_stalemate : is_stalemate one_move.game_state.game ≡ false
unfolding running_server init_game_state init_game reset_game_to_starting_position
no_stalemate = refl

connected : one_move.game_state.opponent_disconnected ≡ false
unfolding init_game_state
connected = refl

abbrev bob_resigns : ResignBroadcast
bob_resigns = record {
  game_id = codes "game_1_0";
  player_id = codes "bob";
  winner_team = team_white;
}

handle_resign_broadcast_undecided_example :
    ((handle_resign_broadcast around bob_resigns one_move).client.game_state.pgn_result ≡ codes "*")
    × ((handle_resign_broadcast around bob_resigns one_move).files
        ≡ record {
          name = around.disk.file_name;
          content =
              pgn_text around.disk.date (record one_move.game_state { pgn_result = codes "*" });
        }
          ∷ [])
handle_resign_broadcast_undecided_example =
    handle_resign_broadcast_undecided around bob_resigns one_move (λ e. ground arith) no_mate
      no_stalemate connected refl refl
