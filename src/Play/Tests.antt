-- ===== src/Play/Tests.antt =====
-- A move of a running game, from the click to both boards.
use multiplay_chess.Prelude.{◌≡◌, refl, true, false, none, some, [], ◌∷◌, pos, arith, codes}
use multiplay_chess.Piece.{white, team_eq}
use multiplay_chess.Rule.{is_move_legal, apply_move}
use multiplay_chess.Protocol.{move}
use multiplay_chess.Network.{failed}
use multiplay_chess.Match.{ActiveGame, find_game_by_player_fd}
use multiplay_chess.Client.{init_game_state}
use multiplay_chess.ClientState.{ClientState, init_client_state}
use multiplay_chess.Handlers.{Around, dispatch_server_message}
use multiplay_chess.Server.Turn.{Seat, seat_of, handle_move_message}
use multiplay_chess.Server.Scenario.{running_server, all_sent, both_play, first_game}
use multiplay_chess.Input.{Desk, Moment, handle_board_click}
use multiplay_chess.Play.Clicked.{asked, confirmed, announced, settled, clicked_move_played}

abbrev running_game : ActiveGame
running_game = first_game both_play

abbrev bob_plays : Seat
bob_plays = record { player_id = codes "bob"; opponent_fd = pos 5; team = white }

abbrev clock : Moment
clock = record { now = pos 43210; sent = pos 12 }

-- The client of a player, connected and at the game's position.
abbrev follower : ClientState
follower = record init_client_state {
  connected = true;
  game_state = record init_game_state { game = running_game.game_state };
}

abbrev bobs_desk : Desk
bobs_desk = record {
  client = follower;
  cursor_x = pos 0;
  cursor_y = pos 0;
  cursor_mode = false;
  requests = [];
}

abbrev around : Around
around = record {
  now = pos 43211;
  disk = record {
    folder_ready = true;
    file_opens = true;
    file_name = codes "game";
    date = codes "2024.01.01";
  };
  move_timestamp = none;
}

playing : find_game_by_player_fd (pos 6) both_play.manager ≡ some (0, running_game)
unfolding running_server
playing = refl

seated : seat_of (pos 6) running_game ≡ some bob_plays
unfolding running_server
seated = refl

turn : team_eq running_game.game_state.side_to_move white ≡ true
unfolding running_server
turn = refl

legal : is_move_legal running_game.game_state (pos 4) (pos 1) (pos 4) (pos 3) ≡ true
unfolding running_server
legal = refl

sent :
    failed
      (confirmed all_sent
        (pos 43210000)
        (pos 6)
        0
        running_game
        bob_plays
        (pos 4)
        (pos 1)
        (pos 4)
        (pos 3)
        both_play).0
    ≡ false
unfolding running_server
sent = refl

team : follower.game_state.local_team ≡ white
unfolding init_game_state
team = refl

none_selected : follower.piece_selected ≡ false
unfolding init_client_state
none_selected = refl

clicked_move_played_example :
    ((handle_board_click clock
        (pos 4)
        (pos 3)
        (handle_board_click clock (pos 4) (pos 1) bobs_desk)).requests
      ≡ move (some (asked (pos 4) (pos 1) (pos 4) (pos 3))) ∷ [])
    × (handle_move_message all_sent
          (pos 43210000)
          (pos 6)
          (move (some (asked (pos 4) (pos 1) (pos 4) (pos 3))))
          both_play
        ≡ (
          pos 0,
          settled all_sent
              (pos 43210000)
              (pos 6)
              0
              running_game
              bob_plays
              (pos 4)
              (pos 1)
              (pos 4)
              (pos 3)
              both_play,
        ))
    × ((dispatch_server_message around
          (announced (pos 43210000) running_game bob_plays (pos 4) (pos 1) (pos 4) (pos 3))
          (handle_board_click clock
            (pos 4)
            (pos 3)
            (handle_board_click clock (pos 4) (pos 1) bobs_desk)).client).client.game_state.game
        ≡ apply_move running_game.game_state (pos 4) (pos 1) (pos 4) (pos 3))
    × ((dispatch_server_message around
          (announced (pos 43210000) running_game bob_plays (pos 4) (pos 1) (pos 4) (pos 3))
          follower).client.game_state.game
        ≡ apply_move running_game.game_state (pos 4) (pos 1) (pos 4) (pos 3))
clicked_move_played_example =
    clicked_move_played all_sent (pos 43210000) (pos 6) 0 running_game bob_plays both_play (pos 4)
      (pos 1) (pos 4) (pos 3) clock clock bobs_desk around follower playing seated turn legal sent
      refl team none_selected refl (omega arith) refl
