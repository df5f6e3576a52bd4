-- ===== src/Server/Tests.antt =====
-- The server on the states of a run (server/handlers/move.c, server/server_network.c).
use multiplay_chess.Prelude.{◌≡◌, ◌⊎◌, refl, true, some, get_elem?, pos, codes}
use multiplay_chess.Piece.{white}
use multiplay_chess.Rule.Sound.{IsSound}
use multiplay_chess.Match.Counts.{IsConsistent}
use multiplay_chess.Server.Turn.{Seat}
use multiplay_chess.Server.Outcome.{Refused, Made, try_move_outcome}
use multiplay_chess.Server.Reach.{Reachable-IsConsistent, Reachable-IsSound}
use multiplay_chess.Server.Scenario.{
  running_server, all_sent, both_play, bob_moved, e2e4, first_game, reach_move,
}

Reachable-IsConsistent_example : IsConsistent bob_moved.manager
Reachable-IsConsistent_example = Reachable-IsConsistent reach_move

moved_game : get_elem? bob_moved.manager.active_games 0 ≡ some (first_game bob_moved)
unfolding running_server
moved_game = refl

moved_active : (first_game bob_moved).is_active ≡ true
unfolding running_server
moved_active = refl

Reachable-IsSound_example : IsSound (first_game bob_moved).game_state
Reachable-IsSound_example =
    Reachable-IsSound 0 (first_game bob_moved) reach_move moved_game moved_active

abbrev bob_seat : Seat
bob_seat = record { player_id = codes "bob"; opponent_fd = pos 5; team = white }

try_move_outcome_example :
    Refused all_sent (pos 0) (pos 6) 0 (first_game both_play) bob_seat e2e4 both_play
    ⊎ Made all_sent (pos 0) (pos 6) 0 (first_game both_play) bob_seat e2e4 both_play
try_move_outcome_example =
    try_move_outcome all_sent (pos 0) (pos 6) 0 (first_game both_play) bob_seat e2e4 both_play
