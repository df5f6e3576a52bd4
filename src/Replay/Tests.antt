-- ===== src/Replay/Tests.antt =====
-- Runs of saving, loading and replaying (client/pgn_save.c, client/replay.c).
use multiplay_chess.Prelude.{
  ◌≡◌, refl, true, false, Option, none, some, List, [], ◌∷◌, take, replicate, pos, minus_one, ◌+ℤ◌,
  ◌-ℤ◌, div_ℤ, Text, codes, arith,
}
use multiplay_chess.Piece.{black}
use multiplay_chess.Game.{Game}
use multiplay_chess.Fen.{fen_parse, read_fields, tokens, read_field, place}
use multiplay_chess.Client.{GameState, reset_game_to_starting_position, init_game, init_game_state}
use multiplay_chess.ClientState.{ClientState, init_client_state}
use multiplay_chess.Protocol.{MoveBroadcast, pt_none, team_unspecified, end_unknown, move_broadcast}
use multiplay_chess.Pgn.{pgn_text}
use multiplay_chess.Handlers.{Around, dispatch_server_message}
use multiplay_chess.Replay.{
  fgets, skip_header, skip_space, word, scan_token, read_moves, load_moves, ReplayState, move_count,
  replay_to_move, Key, key_up, key_down, key, Tick, Playing, go_to, auto_step, on_key, play,
  time_diff_ms, start_replay,
}
use multiplay_chess.Replay.Lines.{IsHeader}
use multiplay_chess.Replay.Roundtrip.{AllTokens, load_moves-pgn_text}
use multiplay_chess.Replay.Recorded.{start, Unwritten, play_all, IsRecorded}
use multiplay_chess.Replay.Player.{IsPlaying, start_replay-IsPlaying}
use multiplay_chess.Replay.Saved.{saved_game_replayed}
use multiplay_chess.Replay.Live.{InStep, Follows, dispatch_server_message-InStep}

abbrev two_moves : List Text
two_moves = codes "e2e4" ∷ codes "e7e5" ∷ replicate 510 []

-- A game after two moves.
abbrev played : GameState
played = record init_game_state {
  game = play_all (codes "e2e4" ∷ codes "e7e5" ∷ []) start;
  local_player = codes "bob";
  opponent_player = codes "amy";
  pgn_moves = two_moves;
  pgn_move_count = pos 2;
}

abbrev today : Text
today = codes "2025.06.01"

played-IsHeader : IsHeader today played
unfolding init_game_state
played-IsHeader = record {
  date_line = refl;
  date_fits = omega arith;
  local_line = refl;
  local_fits = omega arith;
  opponent_line = refl;
  opponent_fits = omega arith;
  result_line = refl;
  result_fits = omega arith;
}

two_tokens : AllTokens (take 2 two_moves)
two_tokens = (
  record { visible = refl; no_dot = refl; longer = omega arith; fits = omega arith },
  (record { visible = refl; no_dot = refl; longer = omega arith; fits = omega arith }, tt),
)

load_moves-pgn_text_example : load_moves (some (pgn_text today played)) ≡ take 2 two_moves
load_moves-pgn_text_example =
    load_moves-pgn_text today played 2 played-IsHeader refl (omega arith) (omega arith) two_tokens

-- A file with nothing behind its header, and one with a move.
read_two : load_moves (some (codes "[Event]\n\n1. e2e4 e7e5\n")) ≡ codes "e2e4" ∷ codes "e7e5" ∷ []
unfolding load_moves fgets skip_header skip_space word scan_token read_moves
read_two = refl

played-IsRecorded : IsRecorded played
played-IsRecorded = record {
  number = 2;
  counted = refl;
  within = omega arith;
  size = refl;
  tokens = two_tokens;
  in_step = refl;
}

abbrev loaded : ReplayState
loaded = record {
  moves = load_moves (some (pgn_text today played));
  current_move = minus_one;
  auto_play = false;
  last_auto_play_time = record { tv_sec = pos 0; tv_usec = pos 0 };
}

-- A replay starts on what was shown before.
abbrev before : Game
before = record init_game { side_to_move = black }

before-Unwritten : Unwritten before
unfolding init_game reset_game_to_starting_position fen_parse read_fields tokens read_field place
    ◌+ℤ◌ ◌-ℤ◌
before-Unwritten = (refl, refl, refl, refl)

saved_game_replayed_example :
    replay_to_move loaded (move_count loaded -ℤ pos 1) before ≡ played.game
saved_game_replayed_example =
    saved_game_replayed today played loaded before played-IsRecorded played-IsHeader
      (λ e. ground arith) refl before-Unwritten

abbrev at_two : ClientState
at_two = record init_client_state { game_state = played }

abbrev around : Around
around = record {
  now = pos 100;
  disk = record { folder_ready = true; file_opens = true; file_name = codes "g.pgn"; date = today };
  move_timestamp = none;
}

abbrev d4 : MoveBroadcast
d4 = record {
  game_id = codes "game_1_0";
  player_id = codes "bob";
  from = codes "d2";
  to = codes "d4";
  promotion = pt_none;
  game_ends = false;
  winner_team = team_unspecified;
  end_type = end_unknown;
  is_check = false;
  checked_team = team_unspecified;
  white_time_remaining = pos 595;
  black_time_remaining = pos 600;
}

dispatch_server_message-InStep_example :
    InStep (dispatch_server_message around (move_broadcast d4) at_two).client
    × Follows
        (move_broadcast d4)
        at_two.game_state
        (dispatch_server_message around (move_broadcast d4) at_two).client.game_state
dispatch_server_message-InStep_example =
    dispatch_server_message-InStep around (move_broadcast d4) at_two played-IsRecorded
      (record { place = λ e. ground arith; other = refl })

-- Down, and the auto-play switched on.
abbrev tick : Key → Tick
tick k = record {
  now = record { tv_sec = pos 1; tv_usec = pos 0 };
  played_at = record { tv_sec = pos 1; tv_usec = pos 0 };
  pressed_at = record { tv_sec = pos 1; tv_usec = pos 0 };
  pressed = some k;
  shutdown_requested = false;
}

abbrev ticks : List Tick
ticks = tick key_down ∷ tick (key b' ') ∷ tick key_up ∷ tick key_up ∷ []

abbrev short_file : Option Text
short_file = some (codes "[Event]\n\n1. e2e4 e7e5\n")

-- The player behind those keys.
abbrev player_of : Option Playing → Playing
player_of none = record { replay = loaded; game = init_game }
player_of (some p) = p

abbrev player : Playing
player = player_of (start_replay short_file ticks init_game)

it_plays : start_replay short_file ticks init_game ≡ some player
unfolding start_replay load_moves fgets skip_header skip_space word scan_token read_moves
it_plays = refl

start_replay-IsPlaying_example : IsPlaying (load_moves short_file) player
start_replay-IsPlaying_example = start_replay-IsPlaying short_file ticks init_game player it_plays

-- Down and twice up: before the first move again, with the auto-play off.
back_at_start : (player.replay.current_move ≡ minus_one) × (player.replay.auto_play ≡ false)
unfolding start_replay load_moves fgets skip_header skip_space word scan_token read_moves play
    auto_step on_key go_to ◌+ℤ◌ ◌-ℤ◌ time_diff_ms div_ℤ
back_at_start = (refl, refl)
