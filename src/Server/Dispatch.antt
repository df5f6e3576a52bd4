-- ===== src/Server/Dispatch.antt =====
-- Routing (server/handlers/dispatcher.c) and the step of the event loop for a client
-- (`handle_client_message` of server/server_network.c).
use multiplay_chess.Prelude.{if◌then◌else◌, Option, none, some, ℤ, pos, minus_one, ◌-ℤ◌, codes}
use multiplay_chess.Protocol.{
  ClientMessage, ping, echo, chat, match_game, cancel_match, resign, move, unset,
}
use multiplay_chess.Network.{Net, failed}
use multiplay_chess.Match.{Readings}
use multiplay_chess.Match.Leave.{handle_player_disconnect}
use multiplay_chess.Server.Session.{
  Server, send_error_response, handle_ping_message, handle_echo_message, handle_chat_message,
  handle_match_game_message, handle_cancel_match_message, handle_resign_message,
}
use multiplay_chess.Server.Turn.{handle_move_message}

unfoldable pub handle_unknown_message : Net → ℤ → Server → ℤ × Server
handle_unknown_message net fd s =
    let (r, s') = send_error_response net fd (pos 400) (codes "Unsupported message type") s in
    (if failed r then minus_one else pos 0, s')

-- `none` is the overrun of a player's name in `strcpy`.
unfoldable pub dispatch_client_message :
    Net → Readings → ℤ → ClientMessage → Server → Option (ℤ × Server)
dispatch_client_message net now fd (ping p) s = some (handle_ping_message net fd (ping p) s)
dispatch_client_message net now fd (echo p) s = some (handle_echo_message net fd (echo p) s)
dispatch_client_message net now fd (match_game p) s =
    handle_match_game_message net now fd (match_game p) s
dispatch_client_message net now fd (cancel_match p) s =
    some (handle_cancel_match_message net fd (cancel_match p) s)
dispatch_client_message net now fd (chat p) s = some (handle_chat_message net fd (chat p) s)
dispatch_client_message net now fd (move p) s =
    some (handle_move_message net now.move_ms fd (move p) s)
dispatch_client_message net now fd (resign p) s = some (handle_resign_message net fd (resign p) s)
dispatch_client_message net now fd unset s = some (handle_unknown_message net fd s)

-- A handler that fails has an error sent after it.
unfoldable pub report_failure : Net → ℤ → ℤ → Server → Server
report_failure net fd result s =
    if failed result
    then (send_error_response net fd (pos 0 -ℤ result)
        (codes "An error occurred while processing the request") s).1
    else s

-- `none` is a closed connection or a message that could not be read.
unfoldable pub handle_client_message :
    Net → Readings → ℤ → Option ClientMessage → Server → Option Server
handle_client_message net now fd none s =
    let left = handle_player_disconnect fd s.manager s.out in
    some (record { manager = left.manager; out = left.out })
handle_client_message net now fd (some msg) s = elim (dispatch_client_message net now fd msg s) [
  | none ↦ none
  | some (result, s') ↦ some (report_failure net fd result s')
]
