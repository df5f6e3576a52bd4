-- ===== src/Server/Session.antt =====
-- The handlers of the session (server/handlers/ping.c, echo.c, chat.c, match.c, cancel_match.c,
-- resign.c) and `send_error_response` of server/server_network.c. Logging is left out, and `malloc`
-- and `strdup` are taken to succeed.
use multiplay_chess.Prelude.{
  true, false, if◌then◌else◌, Option, none, some, [], ℤ, pos, minus_one, div_ℤ, leb_ℤ, ◌==ℤ◌, Text,
  codes, is_empty,
}
use multiplay_chess.Protocol.{
  ProtoTeam, team_unspecified, team_white, team_black, ClientMessage, ping, echo, chat, match_game,
  cancel_match, resign, ServerMessage, ping_res, echo_res, match_game_res, cancel_match_res,
  chat_broadcast, resign_res, resign_broadcast, error,
}
use multiplay_chess.Network.{Outbox, Net, send_server_message, notify, failed}
use multiplay_chess.Match.{
  ActiveGame, MatchManager, MatchResult, waiting, game_started, match_error, Readings, find_slot,
  plays_on, add_player_to_matching, remove_player_from_matching, find_game_by_player_fd, end_game,
}

-- The state of the server process: the match manager and the messages sent so far.
pub record Server : Type 0 where
  pub manager : MatchManager
  pub out : Outbox

-- `return send_server_message(fd, &msg);`
unfoldable pub reply : Net → ℤ → ServerMessage → Server → ℤ × Server
unfolding send_server_message
reply net fd msg s =
    let (r, out) = send_server_message net fd msg s.out in (r, record s { out = out })

-- The same, with -1 for a failure and 0 else.
unfoldable pub reply_checked : Net → ℤ → ServerMessage → Server → ℤ × Server
unfolding reply
reply_checked net fd msg s =
    let (r, s') = reply net fd msg s in (if failed r then minus_one else pos 0, s')

unfoldable pub send_error_response : Net → ℤ → ℤ → Text → Server → ℤ × Server
send_error_response net fd code message s =
    reply net fd (error (record { code = code; message = message })) s

unfoldable pub handle_ping_message : Net → ℤ → ClientMessage → Server → ℤ × Server
handle_ping_message net fd (ping _) s =
    reply_checked net fd (ping_res (codes "Pong from server!")) s
handle_ping_message net fd _ s = (minus_one, s)

unfoldable pub handle_echo_message : Net → ℤ → ClientMessage → Server → ℤ × Server
handle_echo_message net fd (echo message) s = reply_checked net fd (echo_res message) s
handle_echo_message net fd _ s = (minus_one, s)

-- To White first; a failure there ends the handler before Black is told.
unfoldable pub broadcast_chat : Net → ActiveGame → ServerMessage → Server → ℤ × Server
broadcast_chat net g msg s =
    let (r, s') = reply net g.white_player_fd msg s in
    let black_told = reply_checked net g.black_player_fd msg s' in
    if failed r then (minus_one, s') else black_told

unfoldable pub handle_chat_message : Net → ℤ → ClientMessage → Server → ℤ × Server
handle_chat_message net fd (chat message) s = elim (find_game_by_player_fd fd s.manager) [
  | none ↦ (minus_one, s)
  | some (_, g) ↦
      let sender = if g.white_player_fd ==ℤ fd then g.white_player_id else g.black_player_id in
      broadcast_chat net g (chat_broadcast (record { player_id = sender; message = message })) s
]
handle_chat_message net fd _ s = (minus_one, s)

-- `s ? s : ""`
abbrev pub or_empty : Option Text → Text
or_empty none = []
or_empty (some s) = s

-- The response that carries the game, for the player of the given team.
abbrev pub game_response : MatchResult → ActiveGame → ProtoTeam → Text → ServerMessage
game_response r g team opponent = match_game_res (record {
  game_id = or_empty r.game_id;
  success = true;
  message = codes "Match found! Game starting...";
  assigned_team = team;
  opponent_name = opponent;
  time_limit_per_player = div_ℤ g.time_limit_per_player (pos 1000);
  game_start_time = some g.game_start_time;
  white_time_remaining = div_ℤ g.white_time_remaining (pos 1000);
  black_time_remaining = div_ℤ g.black_time_remaining (pos 1000);
})

abbrev pub opposite : ProtoTeam → ProtoTeam
opposite team_white = team_black
opposite _ = team_white

-- `case MATCH_STATUS_GAME_STARTED`: the player is answered, and if that works his opponent is told.
unfoldable pub announce_game : Net → ℤ → MatchResult → Server → ℤ × Server
announce_game net fd r s = elim (find_game_by_player_fd fd s.manager) [
  | none ↦ (minus_one, s)
  | some (_, g) ↦
      let (sent, s') =
        reply net fd (game_response r g r.assigned_team (or_empty r.opponent_name)) s in
      let name = if g.white_player_fd ==ℤ fd then g.white_player_id else g.black_player_id in
      let to_opponent = game_response r g (opposite r.assigned_team) name in
      (
        sent,
        if failed sent
            then s'
            else if leb_ℤ (pos 0) r.opponent_fd
            then record s' { out = notify r.opponent_fd to_opponent s'.out }
            else s',
      )
]

abbrev pub waiting_response : MatchResult → ServerMessage
waiting_response r = match_game_res (record {
  game_id = or_empty r.game_id;
  success = true;
  message = codes "Waiting for opponent...";
  assigned_team = team_unspecified;
  opponent_name = [];
  time_limit_per_player = pos 0;
  game_start_time = none;
  white_time_remaining = pos 0;
  black_time_remaining = pos 0;
})

abbrev pub failure_text : Option Text → Text
failure_text none = codes "Matchmaking failed"
failure_text (some s) = s

-- The `switch` over the status.
unfoldable pub answer_match : Net → ℤ → MatchResult → Server → ℤ × Server
answer_match net fd r s = elim r.status [
  | waiting ↦ reply net fd (waiting_response r) s
  | game_started ↦ announce_game net fd r s
  | match_error ↦ send_error_response net fd (pos 3) (failure_text r.error_message) s
]

-- `none` is the overrun of a player's name.
unfoldable pub handle_match_game_message :
    Net → Readings → ℤ → ClientMessage → Server → Option (ℤ × Server)
handle_match_game_message net now fd (match_game (some id)) s = elim (is_empty id) [
  | true ↦ some (send_error_response net fd (pos 2) (codes "Player ID is required") s)
  | false ↦ elim (add_player_to_matching now fd (some id) s.manager) [
    | none ↦ none
    | some (m, r) ↦ some (answer_match net fd r (record s { manager = m }))
  ]
]
handle_match_game_message net now fd _ s =
    some (send_error_response net fd (pos 1) (codes "Invalid match request data") s)

abbrev pub cancel_response : Text → ℤ → ServerMessage
cancel_response id removed =
    let found = removed ==ℤ pos 0 in
    cancel_match_res (record {
      player_id = id;
      success = found;
      message =
          if found
          then codes "Matching cancelled successfully"
          else codes "Player not in matching queue";
    })

unfoldable pub handle_cancel_match_message : Net → ℤ → ClientMessage → Server → ℤ × Server
handle_cancel_match_message net fd (cancel_match (some id)) s = elim (is_empty id) [
  | true ↦ send_error_response net fd (pos 2) (codes "Player ID is required") s
  | false ↦
      let (removed, m) = remove_player_from_matching fd s.manager in
      reply net fd (cancel_response id removed) (record s { manager = m })
]
handle_cancel_match_message net fd _ s =
    send_error_response net fd (pos 1) (codes "Invalid cancel match request data") s

-- The three messages of a resignation, sent whatever became of the ones before.
unfoldable pub announce_resignation : ℤ → Text → ActiveGame → Outbox → Outbox
announce_resignation fd id g out =
    let left = g.white_player_fd ==ℤ fd in
    let opponent_fd = if left then g.black_player_fd else g.white_player_fd in
    let response = resign_res (record {
      game_id = g.game_id;
      player_id = id;
      success = true;
      message = codes "Resignation successful";
    }) in
    let ended = resign_broadcast (record {
      game_id = g.game_id;
      player_id = id;
      winner_team = if left then team_black else team_white;
    }) in
    let told = notify fd ended (notify fd response out) in
    if leb_ℤ (pos 0) opponent_fd then notify opponent_fd ended told else told

-- The search of the handler is that of `find_game_by_player_fd`, under the same lock as the end.
unfoldable pub handle_resign_message : Net → ℤ → ClientMessage → Server → ℤ × Server
handle_resign_message net fd (resign (some id)) s =
    elim (find_slot (plays_on fd) s.manager.active_games) [
      | none ↦ send_error_response net fd (pos 404) (codes "You are not in any active game") s
      | some (j, g) ↦ (
        pos 0,
        record { manager = end_game s.manager j g; out = announce_resignation fd id g s.out },
      )
    ]
handle_resign_message net fd _ s =
    send_error_response net fd (pos 400) (codes "Invalid resign request") s
