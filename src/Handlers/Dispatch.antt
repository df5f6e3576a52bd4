-- ===== src/Handlers/Dispatch.antt =====
-- The client's dispatcher (client/handlers/dispatcher.c).
use multiplay_chess.Prelude.{codes}
use multiplay_chess.Protocol.{
  ServerMessage, ping_res, echo_res, match_game_res, cancel_match_res, move_res, move_broadcast,
  game_end, chat_broadcast, resign_res, resign_broadcast, check_broadcast, error, msg_not_set,
}
use multiplay_chess.ClientState.{ClientState, add_chat_message_safe}
use multiplay_chess.Handlers.Notices.{
  Around, Handled, handled, handle_ping_response, handle_echo_response, handle_match_game_response,
  handle_cancel_match_response, handle_chat_broadcast, handle_error_response,
  handle_check_broadcast, handle_resign_response,
}
use multiplay_chess.Handlers.Endings.{handle_resign_broadcast, handle_game_end_broadcast}
use multiplay_chess.Handlers.MoveBroadcast.{handle_move_response, handle_move_broadcast}

-- The state of the client behind a message of the server.
unfoldable pub dispatch_server_message : Around → ServerMessage → ClientState → Handled
dispatch_server_message a (ping_res message) c = handle_ping_response a message c
dispatch_server_message a (echo_res message) c = handle_echo_response a message c
dispatch_server_message a (match_game_res r) c = handle_match_game_response a r c
dispatch_server_message a (cancel_match_res r) c = handle_cancel_match_response a r c
dispatch_server_message a (chat_broadcast b) c = handle_chat_broadcast a b c
dispatch_server_message a (game_end b) c = handle_game_end_broadcast a b c
dispatch_server_message a (error r) c = handle_error_response a r c
dispatch_server_message a (move_res r) c = handle_move_response a r c
dispatch_server_message a (move_broadcast b) c = handle_move_broadcast a b c
dispatch_server_message a (check_broadcast b) c = handle_check_broadcast a b c
dispatch_server_message a (resign_res r) c = handle_resign_response a r c
dispatch_server_message a (resign_broadcast b) c = handle_resign_broadcast a b c
dispatch_server_message a msg_not_set c =
    handled (add_chat_message_safe a.now (codes "System") (codes "Unknown server message") c)
