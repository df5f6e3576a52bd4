-- ===== src/Match/Removal.antt =====
-- Finding and removing players and games, and the counts (server/match_manager.c).
use multiplay_chess.Prelude.{
  ℕ, Bool, false, ◌&&◌, ◌||◌, Option, none, some, set, ℤ, pos, minus_one, ◌-ℤ◌, ◌==ℤ◌, Text,
  text_eq,
}
use multiplay_chess.Match.State.{WaitingPlayer, ActiveGame, MatchManager}
use multiplay_chess.Match.Joining.{find_slot}

abbrev pub waits_on : ℤ → WaitingPlayer → Bool
waits_on fd w = w.is_active && (w.fd ==ℤ fd)

unfoldable pub drop_waiting : MatchManager → ℕ → WaitingPlayer → MatchManager
drop_waiting m i w = record m {
  waiting_players = set m.waiting_players i (record w { is_active = false });
  waiting_count = m.waiting_count -ℤ pos 1;
}

unfoldable pub remove_player_from_matching : ℤ → MatchManager → ℤ × MatchManager
remove_player_from_matching fd m = elim (find_slot (waits_on fd) m.waiting_players) [
  | some (i, w) ↦ (pos 0, drop_waiting m i w)
  | none ↦ (minus_one, m)
]

abbrev pub plays_on : ℤ → ActiveGame → Bool
plays_on fd g = g.is_active && ((g.white_player_fd ==ℤ fd) || (g.black_player_fd ==ℤ fd))

-- The game found is given with its place, which stands for the pointer.
unfoldable pub find_game_by_player_fd : ℤ → MatchManager → Option (ℕ × ActiveGame)
find_game_by_player_fd fd m = find_slot (plays_on fd) m.active_games

unfoldable pub end_game : MatchManager → ℕ → ActiveGame → MatchManager
end_game m j g = record m {
  active_games = set m.active_games j (record g { is_active = false });
  active_game_count = m.active_game_count -ℤ pos 1;
}

abbrev pub has_id : Text → ActiveGame → Bool
has_id game_id g = g.is_active && text_eq g.game_id game_id

unfoldable pub remove_game : Option Text → MatchManager → ℤ × MatchManager
remove_game none m = (minus_one, m)
remove_game (some game_id) m = elim (find_slot (has_id game_id) m.active_games) [
  | some (j, g) ↦ (pos 0, end_game m j g)
  | none ↦ (minus_one, m)
]

abbrev pub get_waiting_players_count : MatchManager → ℤ
get_waiting_players_count m = m.waiting_count

abbrev pub get_active_games_count : MatchManager → ℤ
get_active_games_count m = m.active_game_count
