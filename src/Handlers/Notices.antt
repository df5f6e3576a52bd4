-- ===== src/Handlers/Notices.antt =====
-- The handlers of answers and notices (client/handlers/ping.c, echo.c, match.c, cancel_match.c,
-- chat.c, error.c, check.c). A handler returns its code, the new state and the files it wrote.
use multiplay_chess.Prelude.{
  true, if◌then◌else◌, Option, none, some, List, [], ◌++◌, take, ℤ, pos, ltb_ℤ, Text, codes,
}
use multiplay_chess.Piece.{Team, white, black}
use multiplay_chess.Protocol.{
  team_unspecified, team_white, team_black, MatchGameResponse, CancelMatchResponse, ResignResponse,
  CheckBroadcast, ChatBroadcast, ErrorResponse,
}
use multiplay_chess.Client.{GameState, init_game, reset_game_for_player}
use multiplay_chess.Pgn.{Disk, File}
use multiplay_chess.ClientState.{
  screen_main, screen_game, ClientState, add_chat_message_safe, request_update,
}

-- What a handler meets: the clock, the disk, and the time that the server put on a move.
pub record Around : Type 0 where
  pub now : ℤ
  pub disk : Disk
  pub move_timestamp : Option ℤ

pub record Handled : Type 0 where
  pub code : ℤ
  pub client : ClientState
  pub files : List File

abbrev pub handled : ClientState → Handled
handled c = record { code = pos 0; client = c; files = [] }

-- `snprintf` into a `char[256]`.
abbrev pub cut : Text → Text
cut t = take 255 t

abbrev pub with_game : GameState → ClientState → ClientState
with_game s c = record c { game_state = s }

unfoldable pub handle_ping_response : Around → Text → ClientState → Handled
handle_ping_response a message c = handled c

unfoldable pub handle_echo_response : Around → Text → ClientState → Handled
handle_echo_response a message c =
    handled (add_chat_message_safe a.now (codes "Server") (cut (codes "Echo: " ++ message)) c)

-- The fields that a found match sets on the game.
unfoldable pub begin_game : Around → MatchGameResponse → Text → GameState → GameState
begin_game a r username s =
    let team : Team = elim r.assigned_team [ team_black ↦ black | _ ↦ white ] in
    let timed = ltb_ℤ (pos 0) r.time_limit_per_player in
    let white_time : ℤ = if timed then r.white_time_remaining else pos 600 in
    let black_time : ℤ = if timed then r.black_time_remaining else pos 600 in
    let start : ℤ = elim r.game_start_time [ none ↦ a.now | some t ↦ t ] in
    record s {
      opponent_player = take 31 r.opponent_name;
      local_player = take 31 username;
      local_team = team;
      game_in_progress = true;
      game_start_time = start;
      game = record (reset_game_for_player init_game team) { side_to_move = white };
      white_time_remaining = white_time;
      black_time_remaining = black_time;
      last_timer_update = start;
      white_time_at_last_sync = white_time;
      black_time_at_last_sync = black_time;
      pgn_move_count = pos 0;
      pgn_result = codes "*";
    }

unfoldable pub match_found : Around → MatchGameResponse → ClientState → ClientState
match_found a r c =
    let told =
      add_chat_message_safe a.now (codes "System") (codes "Match found! Game starting...") c in
    record told {
      game_state = begin_game a r c.username told.game_state;
      current_screen = screen_game;
      screen_update_requested = true;
    }

unfoldable pub handle_match_game_response : Around → MatchGameResponse → ClientState → Handled
handle_match_game_response a r c =
    if r.success
    then (elim r.assigned_team [ team_unspecified ↦ handled c | _ ↦ handled (match_found a r c) ])
    else handled (record (add_chat_message_safe a.now (codes "System") r.message c) {
      current_screen = screen_main;
    })

unfoldable pub handle_cancel_match_response : Around → CancelMatchResponse → ClientState → Handled
handle_cancel_match_response a r c =
    let text = if r.success then codes "Matching cancelled successfully" else r.message in
    handled (add_chat_message_safe a.now (codes "System") text c)

unfoldable pub handle_chat_broadcast : Around → ChatBroadcast → ClientState → Handled
handle_chat_broadcast a b c =
    handled (request_update (add_chat_message_safe a.now b.player_id b.message c))

-- `show_dialog` marks the dialog as active.
unfoldable pub handle_error_response : Around → ErrorResponse → ClientState → Handled
handle_error_response a r c =
    let told =
      add_chat_message_safe a.now (codes "System") (cut (codes "Error: " ++ r.message)) c in
    handled (record told { dialog_active = true })

unfoldable pub handle_check_broadcast : Around → CheckBroadcast → ClientState → Handled
handle_check_broadcast a b c =
    let s = c.game_state in
    let marked : GameState = elim b.by_team [
      | team_white ↦ record s { white_in_check = true }
      | team_black ↦ record s { black_in_check = true }
      | team_unspecified ↦ s
    ] in
    let player : Text = elim b.by_team [ team_white ↦ codes "White" | _ ↦ codes "Black" ] in
    handled (
      add_chat_message_safe a.now (codes "Game") (cut (player ++ codes " is in check!"))
        (request_update (with_game marked c)))

unfoldable pub handle_resign_response : Around → ResignResponse → ClientState → Handled
handle_resign_response a r c =
    let text =
      if r.success
      then codes "Resignation successful. Game will end shortly."
      else cut (codes "Resignation failed: " ++ r.message) in
    handled (add_chat_message_safe a.now (codes "System") text c)
