-- ===== src/ClientState.antt =====
-- The state of the client (client/client_state.h, client/client_state.c). The mutexes are left out:
-- an operation that takes one is a single step. `chat_input_buffer` is the array with all its bytes;
-- the other strings are the bytes before the closing zero.
use package.multiplay_chess.Prelude.{
  ℕ, Bool, true, false, List, [], replicate, ℤ, pos, minus_one, Text, codes,
}
use package.multiplay_chess.Client.{
  GameState, init_game_state, add_chat_message, game_is_white_player, get_opponent_name,
}

pub data Screen : Type 0 where
  screen_main screen_matching screen_game : Screen

pub record ClientState : Type 0 where
  pub username : Text
  pub socket_fd : ℤ
  pub connected : Bool
  pub current_screen : Screen
  pub match_start_time : ℤ
  pub game_state : GameState
  pub selected_x : ℤ
  pub selected_y : ℤ
  pub piece_selected : Bool
  pub chat_input_mode : Bool
  pub chat_input_buffer : List ℕ
  pub chat_input_cursor : ℤ
  pub reconnecting : Bool
  pub last_reconnect_attempt : ℤ
  pub dialog_active : Bool
  pub resign_dialog_active : Bool
  pub resign_result_dialog_pending : Bool
  pub resign_result_title : Text
  pub resign_result_message : Text
  pub game_end_dialog_pending : Bool
  pub game_end_message : Text
  pub connection_lost : Bool
  pub disconnect_message : Text
  pub server_host : Text
  pub server_port : ℤ
  pub screen_update_requested : Bool

unfoldable pub init_client_state : ClientState
init_client_state = record {
  username = [];
  socket_fd = minus_one;
  connected = false;
  current_screen = screen_main;
  match_start_time = pos 0;
  game_state = init_game_state;
  selected_x = minus_one;
  selected_y = minus_one;
  piece_selected = false;
  chat_input_mode = false;
  chat_input_buffer = replicate 256 0;
  chat_input_cursor = pos 0;
  reconnecting = false;
  last_reconnect_attempt = pos 0;
  dialog_active = false;
  resign_dialog_active = false;
  resign_result_dialog_pending = false;
  resign_result_title = [];
  resign_result_message = [];
  game_end_dialog_pending = false;
  game_end_message = [];
  connection_lost = false;
  disconnect_message = [];
  server_host = codes "127.0.0.1";
  server_port = pos 8080;
  screen_update_requested = false;
}

unfoldable pub add_chat_message_safe : ℤ → Text → Text → ClientState → ClientState
add_chat_message_safe now sender message c = record c {
  game_state = add_chat_message now sender message c.game_state;
}

abbrev pub client_is_white : ClientState → Bool
client_is_white c = game_is_white_player c.game_state

abbrev pub get_opponent_name_client : ClientState → Text
get_opponent_name_client c = get_opponent_name c.game_state

abbrev pub request_update : ClientState → ClientState
request_update c = record c { screen_update_requested = true }
