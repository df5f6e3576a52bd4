-- ===== src/Match/Leave.antt =====
-- A client that goes away (server/match_manager.c, `handle_player_disconnect`).
use multiplay_chess.Prelude.{if◌then◌else◌, none, some, ℤ, pos, minus_one, ◌==ℤ◌}
use multiplay_chess.Protocol.{team_white, team_black, end_disconnect, ServerMessage, game_end}
use multiplay_chess.Network.{Outbox, notify}
use multiplay_chess.Match.{
  ActiveGame, MatchManager, find_slot, waits_on, plays_on, drop_waiting, end_game,
}

-- What the opponent is told: the player that left, and the opponent's team as the winner.
abbrev pub disconnect_message : ℤ → ActiveGame → ServerMessage
disconnect_message fd g =
    let left = g.white_player_fd ==ℤ fd in
    game_end (record {
      game_id = g.game_id;
      player_id = if left then g.white_player_id else g.black_player_id;
      winner_team = if left then team_black else team_white;
      end_type = end_disconnect;
    })

abbrev pub opponent_of : ℤ → ActiveGame → ℤ
opponent_of fd g = if g.white_player_fd ==ℤ fd then g.black_player_fd else g.white_player_fd

pub record Left : Type 0 where
  pub result : ℤ
  pub manager : MatchManager
  pub out : Outbox

unfoldable pub handle_player_disconnect : ℤ → MatchManager → Outbox → Left
handle_player_disconnect fd m out = elim (find_slot (waits_on fd) m.waiting_players) [
  | some (i, w) ↦ record { result = pos 0; manager = drop_waiting m i w; out = out }
  | none ↦ elim (find_slot (plays_on fd) m.active_games) [
    | some (j, g) ↦ record {
      result = pos 1;
      manager = end_game m j g;
      out = notify (opponent_of fd g) (disconnect_message fd g) out;
    }
    | none ↦ record { result = minus_one; manager = m; out = out }
  ]
]
