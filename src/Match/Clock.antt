-- ===== src/Match/Clock.antt =====
-- The chess clocks (server/match_manager.c, `check_game_timeouts`): a pass over the table of games.
use multiplay_chess.Prelude.{
  false, if◌then◌else◌, List, [], ◌∷◌, ℤ, pos, ◌-ℤ◌, leb_ℤ, ltb_ℤ, to_int32, Text,
}
use multiplay_chess.Piece.{Team, white, black}
use multiplay_chess.Protocol.{ProtoTeam, team_white, team_black, end_timeout, game_end}
use multiplay_chess.Network.{Outbox, notify}
use multiplay_chess.Match.{ActiveGame, MatchManager}

-- Both players are told; the two results are only logged.
unfoldable pub send_timeout_game_end_broadcast : ActiveGame → Text → ProtoTeam → Outbox → Outbox
send_timeout_game_end_broadcast g player_id winner out =
    let msg = game_end (record {
      game_id = g.game_id;
      player_id = player_id;
      winner_team = winner;
      end_type = end_timeout;
    }) in
    notify g.black_player_fd msg (notify g.white_player_fd msg out)

-- `int32_t` arithmetic: both the difference and the subtraction are cut to 32 bits.
abbrev pub charge : ℤ → ℤ → ℤ
charge remaining elapsed = to_int32 (remaining -ℤ to_int32 elapsed)

-- One game of the loop. `none` is a game that goes on; else its messages are to be sent.
pub data Tick : Type 0 where
  running : ActiveGame → Tick
  timed_out : ActiveGame → Text → ProtoTeam → Tick

unfoldable pub charge_white : ℤ → ℤ → ActiveGame → Tick
charge_white now elapsed g =
    let left = charge g.white_time_remaining elapsed in
    if leb_ℤ left (pos 0)
    then timed_out (record g { white_time_remaining = pos 0; last_timer_check_ms = now })
        g.white_player_id team_black
    else running (record g { white_time_remaining = left; last_timer_check_ms = now })

unfoldable pub charge_black : ℤ → ℤ → ActiveGame → Tick
charge_black now elapsed g =
    let left = charge g.black_time_remaining elapsed in
    if leb_ℤ left (pos 0)
    then timed_out (record g { black_time_remaining = pos 0; last_timer_check_ms = now })
        g.black_player_id team_white
    else running (record g { black_time_remaining = left; last_timer_check_ms = now })

abbrev charge_side : Team → ℤ → ℤ → ActiveGame → Tick
charge_side white now elapsed g = charge_white now elapsed g
charge_side black now elapsed g = charge_black now elapsed g

unfoldable pub tick : ℤ → ActiveGame → Tick
tick now g =
    let elapsed = now -ℤ g.last_timer_check_ms in
    if g.is_active
    then (if ltb_ℤ elapsed (pos 100)
        then running g
        else charge_side g.game_state.side_to_move now elapsed g)
    else running g

-- The whole loop, with the count of active games and the messages as they stand before it.
pub record Pass : Type 0 where
  pub games : List ActiveGame
  pub count : ℤ
  pub out : Outbox

unfoldable pub check_games : ℤ → List ActiveGame → ℤ → Outbox → Pass
check_games now [] count out = record { games = []; count = count; out = out }
check_games now (g ∷ gs) count out = elim (tick now g) [
  | running g' ↦ let rest = check_games now gs count out in record rest { games = g' ∷ rest.games }
  | timed_out g' player winner ↦
      let rest =
        check_games now gs (count -ℤ pos 1)
          (send_timeout_game_end_broadcast g' player winner out) in
      record rest { games = record g' { is_active = false } ∷ rest.games }
]

unfoldable pub check_game_timeouts : ℤ → MatchManager → Outbox → MatchManager × Outbox
check_game_timeouts now m out =
    let pass = check_games now m.active_games m.active_game_count out in
    (record m { active_games = pass.games; active_game_count = pass.count }, pass.out)
