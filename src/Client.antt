-- ===== src/Client.antt =====
-- The client's copy of a game (client/game_state.h, client/game_state.c): the position, the chat, the
-- clocks on display. `init_game_state` also makes the folder for replays, which is left out.
pub mod Chat
pub mod Mirror
pub mod Display
mod Tests
use package.multiplay_chess.Prelude.{
  ℕ, zero, suc, ◌+◌, ◌-◌, leb, ◌==◌, Bool, true, false, not, ◌&&◌, ◌||◌, if◌then◌else◌, Option,
  none, some, List, [], ◌∷◌, length, get_elem?, set, replicate, take, ℤ, pos, minus_one, ◌+ℤ◌, ◌-ℤ◌,
  leb_ℤ, ltb_ℤ, ◌==ℤ◌, to_int32, Text, codes,
}
use package.multiplay_chess.Piece.{Team, white, black, team_eq}
use package.multiplay_chess.Game.{Game}
use package.multiplay_chess.Rule.{
  is_move_legal, apply_move, is_in_check, is_checkmate, is_stalemate,
}
use package.multiplay_chess.Fen.{clear_board, fen_parse, game_of, starting_fen}
use package.multiplay_chess.Match.{zero_game}

abbrev pub max_chat_messages : ℕ
max_chat_messages = 50

pub record ChatMessage : Type 0 where
  pub sender : Text
  pub message : Text
  pub timestamp : ℤ

abbrev pub no_message : ChatMessage
no_message = record { sender = []; message = []; timestamp = pos 0 }

-- `board[x][y]` flags of the display.
abbrev pub Marks : Type 0
Marks = ℤ → ℤ → Bool

pub record GameState : Type 0 where
  pub game : Game
  pub chat_messages : List ChatMessage
  pub chat_count : ℕ
  pub local_player : Text
  pub opponent_player : Text
  pub local_team : Team
  pub game_in_progress : Bool
  pub game_start_time : ℤ
  pub white_time_remaining : ℤ
  pub black_time_remaining : ℤ
  pub last_timer_update : ℤ
  pub white_time_at_last_sync : ℤ
  pub black_time_at_last_sync : ℤ
  pub possible_moves : Marks
  pub capture_moves : Marks
  pub opponent_disconnected : Bool
  pub opponent_disconnect_message : Text
  pub white_in_check : Bool
  pub black_in_check : Bool
  pub pgn_moves : List Text
  pub pgn_move_count : ℤ
  pub pgn_result : Text

-- The answer of `fen_parse` is dropped.
unfoldable pub reset_game_to_starting_position : Game → Game
reset_game_to_starting_position g = game_of g (fen_parse g starting_fen)

-- The team is not read.
unfoldable pub reset_game_for_player : Game → Team → Game
reset_game_for_player g team = game_of g (fen_parse g starting_fen)

-- `memset` leaves nothing of what was there.
unfoldable pub init_game : Game
init_game = record (reset_game_to_starting_position (clear_board zero_game)) {
  side_to_move = white;
  halfmove_clock = pos 0;
  fullmove_number = pos 1;
  white_can_castle_kingside = true;
  white_can_castle_queenside = true;
  black_can_castle_kingside = true;
  black_can_castle_queenside = true;
  en_passant_x = minus_one;
  en_passant_y = minus_one;
}

unfoldable pub init_game_state : GameState
init_game_state = record {
  game = init_game;
  chat_messages = replicate max_chat_messages no_message;
  chat_count = 0;
  local_player = [];
  opponent_player = [];
  local_team = white;
  game_in_progress = false;
  game_start_time = pos 0;
  white_time_remaining = pos 600;
  black_time_remaining = pos 600;
  last_timer_update = pos 0;
  white_time_at_last_sync = pos 600;
  black_time_at_last_sync = pos 600;
  possible_moves = λ x y. false;
  capture_moves = λ x y. false;
  opponent_disconnected = false;
  opponent_disconnect_message = [];
  white_in_check = false;
  black_in_check = false;
  pgn_moves = replicate 512 [];
  pgn_move_count = pos 0;
  pgn_result = codes "*";
}

-- `for (int i = 1; i < MAX_CHAT_MESSAGES; i++) a[i - 1] = a[i];`, with the turns left and i.
unfoldable pub move_down {ℓ} : {A : Type ℓ} → ℕ → ℕ → List A → List A
move_down zero i a = a
move_down (suc turns) i a = elim (get_elem? a i) [
  | none ↦ a
  | some v ↦ move_down turns (suc i) (set a (i - 1) v)
]

-- A full buffer loses its oldest message.
unfoldable pub make_room : GameState → GameState
make_room s =
    if leb max_chat_messages s.chat_count
    then record s {
      chat_messages = move_down (max_chat_messages - 1) 1 s.chat_messages;
      chat_count = max_chat_messages - 1;
    }
    else s

-- `strncpy` keeps what fits beside the closing zero: 31 bytes of the sender, 255 of the message.
unfoldable pub add_chat_message : ℤ → Text → Text → GameState → GameState
add_chat_message now sender message s =
    let r = make_room s in
    let m : ChatMessage = record {
      sender = take 31 sender;
      message = take 255 message;
      timestamp = now;
    } in
    record r { chat_messages = set r.chat_messages r.chat_count m; chat_count = suc r.chat_count }

abbrev pub is_valid_move : Game → ℤ → ℤ → ℤ → ℤ → Bool
is_valid_move g from_x from_y to_x to_y = is_move_legal g from_x from_y to_x to_y

unfoldable pub make_move : Game → ℤ → ℤ → ℤ → ℤ → Bool × Game
make_move g from_x from_y to_x to_y =
    if is_valid_move g from_x from_y to_x to_y
    then (true, apply_move g from_x from_y to_x to_y)
    else (false, g)

abbrev pub is_in_check_client : Game → Team → Bool
is_in_check_client g team = is_in_check g team

-- The team is not read.
abbrev pub is_checkmate_client : Game → Team → Bool
is_checkmate_client g team = is_checkmate g

abbrev pub is_stalemate_client : Game → Team → Bool
is_stalemate_client g team = is_stalemate g

abbrev pub game_is_white_player : GameState → Bool
game_is_white_player s = team_eq s.local_team white

abbrev pub get_opponent_name : GameState → Text
get_opponent_name s = s.opponent_player

abbrev pub off_range : ℤ → Bool
off_range z = ltb_ℤ z (pos 0) || leb_ℤ (pos 8) z

-- The bytes of both squares, read and tested. A byte above 127 is out of range whether `char` is
-- signed or not.
unfoldable pub apply_at : Game → ℕ → ℕ → ℕ → ℕ → Bool × Game
apply_at g file rank file' rank' =
    let from_x = pos file -ℤ pos b'a' in
    let from_y = pos rank -ℤ pos b'1' in
    let to_x = pos file' -ℤ pos b'a' in
    let to_y = pos rank' -ℤ pos b'1' in
    if off_range from_x || off_range from_y || off_range to_x || off_range to_y
    then (false, g)
    else (true, apply_move g from_x from_y to_x to_y)

-- `none` is a null pointer.
unfoldable pub apply_move_from_server : Game → Option Text → Option Text → Bool × Game
apply_move_from_server g (some (file ∷ rank ∷ [])) (some (file' ∷ rank' ∷ [])) =
    apply_at g file rank file' rank'
apply_move_from_server g _ _ = (false, g)

-- `int` arithmetic on a clock, which then stops at zero.
abbrev pub run_down : ℤ → ℤ → ℤ
run_down remaining elapsed =
    let left = to_int32 (remaining -ℤ to_int32 elapsed) in
    if ltb_ℤ left (pos 0) then pos 0 else left

unfoldable pub charge_player : ℤ → ℤ → GameState → GameState
charge_player now elapsed s = elim s.game.side_to_move [
  | white ↦ record s {
    white_time_remaining = run_down s.white_time_remaining elapsed;
    last_timer_update = now;
  }
  | black ↦ record s {
    black_time_remaining = run_down s.black_time_remaining elapsed;
    last_timer_update = now;
  }
]

unfoldable pub update_game_timer : ℤ → GameState → GameState
update_game_timer now s =
    let elapsed = now -ℤ s.last_timer_update in
    if not s.game_in_progress
    then s
    else if s.last_timer_update ==ℤ pos 0
    then record s { last_timer_update = now }
    else if ltb_ℤ elapsed (pos 1)
    then s
    else charge_player now elapsed s

unfoldable pub sync_timer_from_server : ℤ → ℤ → ℤ → GameState → GameState
sync_timer_from_server white_time black_time move_time s = record s {
  white_time_remaining = white_time;
  black_time_remaining = black_time;
  game_start_time = move_time;
  last_timer_update = move_time;
  white_time_at_last_sync = white_time;
  black_time_at_last_sync = black_time;
}
