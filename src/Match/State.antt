-- ===== src/Match/State.antt =====
-- The data of server/match_manager.h, and what `init_match_manager` and `cleanup_match_manager` of
-- server/match_manager.c leave.
use multiplay_chess.Prelude.{ℕ, Bool, false, Option, none, List, [], replicate, ℤ, pos, Text}
use multiplay_chess.Piece.{white}
use multiplay_chess.Game.{Game}
use multiplay_chess.Protocol.{ProtoTeam}

abbrev pub max_waiting_players : ℕ
max_waiting_players = 100

abbrev pub max_active_games : ℕ
max_active_games = 50

-- `DEFAULT_GAME_TIME_LIMIT * 1000`
abbrev pub time_limit_ms : ℤ
time_limit_ms = pos 600000

pub record WaitingPlayer : Type 0 where
  pub fd : ℤ
  pub player_id : Text
  pub wait_start_time : ℤ
  pub is_active : Bool

pub record ActiveGame : Type 0 where
  pub game_id : Text
  pub white_player_fd : ℤ
  pub black_player_fd : ℤ
  pub white_player_id : Text
  pub black_player_id : Text
  pub game_start_time : ℤ
  pub is_active : Bool
  pub game_state : Game
  pub time_limit_per_player : ℤ
  pub white_time_remaining : ℤ
  pub black_time_remaining : ℤ
  pub last_move_time_ms : ℤ
  pub last_timer_check_ms : ℤ

pub data MatchStatus : Type 0 where
  waiting game_started match_error : MatchStatus

-- `none` is a null pointer.
pub record MatchResult : Type 0 where
  pub status : MatchStatus
  pub game_id : Option Text
  pub assigned_team : ProtoTeam
  pub opponent_fd : ℤ
  pub opponent_name : Option Text
  pub error_message : Option Text

-- `g_match_manager`, and the static counter of `generate_game_id`.
pub record MatchManager : Type 0 where
  pub waiting_players : List WaitingPlayer
  pub active_games : List ActiveGame
  pub waiting_count : ℤ
  pub active_game_count : ℤ
  pub id_counter : ℕ

abbrev pub no_player : WaitingPlayer
no_player = record { fd = pos 0; player_id = []; wait_start_time = pos 0; is_active = false }

-- The zeroed `game_t`: no piece anywhere, and `is_dead` not set.
abbrev pub zero_game : Game
zero_game = record {
  board = λ y x. record { piece = none; team = white; is_dead = false; has_moved = false };
  side_to_move = white;
  halfmove_clock = pos 0;
  white_can_castle_kingside = false;
  white_can_castle_queenside = false;
  black_can_castle_kingside = false;
  black_can_castle_queenside = false;
  en_passant_x = pos 0;
  en_passant_y = pos 0;
  is_check = false;
  is_checkmate = false;
  is_stalemate = false;
  fullmove_number = pos 0;
}

abbrev pub no_game : ActiveGame
no_game = record {
  game_id = [];
  white_player_fd = pos 0;
  black_player_fd = pos 0;
  white_player_id = [];
  black_player_id = [];
  game_start_time = pos 0;
  is_active = false;
  game_state = zero_game;
  time_limit_per_player = pos 0;
  white_time_remaining = pos 0;
  black_time_remaining = pos 0;
  last_move_time_ms = pos 0;
  last_timer_check_ms = pos 0;
}

-- The manager that `init_match_manager` and, but for the counter, `cleanup_match_manager` leave.
unfoldable pub cleared : ℕ → MatchManager
cleared counter = record {
  waiting_players = replicate max_waiting_players no_player;
  active_games = replicate max_active_games no_game;
  waiting_count = pos 0;
  active_game_count = pos 0;
  id_counter = counter;
}

abbrev pub init_match_manager : MatchManager
init_match_manager = cleared 1

abbrev pub cleanup_match_manager : MatchManager → MatchManager
cleanup_match_manager m = cleared m.id_counter
