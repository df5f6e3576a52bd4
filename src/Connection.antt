-- ===== src/Connection.antt =====
-- The client's connection (client/client_network.c): reconnecting, the thread that receives, and the
-- requests that the client sends. What the system answers is given: the addresses with what `socket`
-- and `connect` make of them, the result of each send, each message that comes in. Reading a
-- message is the framing's.
pub mod Link
pub mod Bounds
pub mod Reach
pub mod Reconnect
mod Tests
use package.multiplay_chess.Prelude.{
  ◌||◌, not, Bool, true, false, if◌then◌else◌, Option, none, some, List, [], ◌∷◌, ◌++◌, ℤ, pos,
  minus_one, ◌-ℤ◌, leb_ℤ, ltb_ℤ, Text, is_empty, codes,
}
use package.multiplay_chess.Coordinate.{parse_chess_coordinate}
use package.multiplay_chess.Protocol.{
  MoveRequest, ClientMessage, ping, chat, match_game, cancel_match, resign, move, ServerMessage,
}
use package.multiplay_chess.ClientState.{
  Screen, screen_main, screen_matching, screen_game, ClientState, add_chat_message_safe,
}
use package.multiplay_chess.Pgn.{File}
use package.multiplay_chess.Handlers.{Around, dispatch_server_message}

-- An address that `getaddrinfo` found: what `socket` returns, and whether `connect` succeeds.
pub record Address : Type 0 where
  pub socket : ℤ
  pub connects : Bool

-- The loop over the addresses.
unfoldable pub try_addresses : List Address → ℤ
try_addresses [] = minus_one
try_addresses (a ∷ others) =
    let rest = try_addresses others in
    if ltb_ℤ a.socket (pos 0) || not a.connects then rest else a.socket

-- `none` is a failure of `getaddrinfo`.
unfoldable pub connect_to_server : Option (List Address) → ℤ
connect_to_server none = minus_one
connect_to_server (some addresses) =
    let sockfd = try_addresses addresses in if ltb_ℤ sockfd (pos 0) then minus_one else sockfd

-- The client with the thread's own flag, what was sent to whom, the closed descriptors and the files
-- that handlers wrote, the latest first.
pub record Thread : Type 0 where
  pub client : ClientState
  pub first_connect : Bool
  pub out : List (ℤ × ClientMessage)
  pub closed : List ℤ
  pub files : List File

-- What a turn of the thread meets. `received` is `none` for a lost connection.
pub record Turn : Type 0 where
  pub now : ℤ
  pub addresses : Option (List Address)
  pub ping_sent : ℤ
  pub received : Option ServerMessage
  pub around : Around

-- `RECONNECT_INTERVAL` is five seconds.
unfoldable pub should_attempt_reconnect : ℤ → ClientState → Bool
should_attempt_reconnect now c =
    if c.reconnecting then false else leb_ℤ (pos 5) (now -ℤ c.last_reconnect_attempt)

-- `if (client->socket_fd >= 0) { close(client->socket_fd); client->socket_fd = -1; }`
unfoldable pub close_socket : Thread → Thread
close_socket n =
    let c = n.client in
    if leb_ℤ (pos 0) c.socket_fd
    then record n { client = record c { socket_fd = minus_one }; closed = c.socket_fd ∷ n.closed }
    else n

-- The ping that follows a connection. `start_reconnect` clears the flag before.
unfoldable pub send_ping : ℤ → Thread → Thread
send_ping result n =
    let c = n.client in
    let text = if n.first_connect then codes "Hello Server!" else codes "Reconnection ping" in
    let sent = record n { out = (c.socket_fd, ping text) ∷ n.out } in
    if ltb_ℤ result (pos 0)
    then record sent {
      client = record c { connected = false; socket_fd = minus_one };
      closed = c.socket_fd ∷ n.closed;
    }
    else sent

unfoldable pub start_reconnect : Turn → Thread → Thread
start_reconnect t n =
    let fd = connect_to_server t.addresses in
    let tried = record n.client {
      last_reconnect_attempt = t.now;
      socket_fd = fd;
      reconnecting = false;
    } in
    if ltb_ℤ fd (pos 0)
    then record n { client = record tried { connected = false }; first_connect = false }
    else send_ping t.ping_sent
        (record n { client = record tried { connected = true }; first_connect = false })

abbrev pub on_game_screen : Screen → Bool
on_game_screen screen_game = true
on_game_screen _ = false

unfoldable pub lose_connection : Thread → Thread
lose_connection n =
    let c = n.client in
    let lost = record c { connected = false } in
    let told : ClientState =
      if on_game_screen c.current_screen
      then record lost {
        connection_lost = true;
        disconnect_message = codes "Connection lost";
        screen_update_requested = true;
      }
      else lost in
    close_socket (record n { client = told })

unfoldable pub take_message : Around → Option ServerMessage → Thread → Thread
take_message around none n = lose_connection n
take_message around (some msg) n =
    let h = dispatch_server_message around msg n.client in
    record n { client = h.client; files = h.files ++ n.files }

abbrev pub receive_step : Turn → Thread → Thread
receive_step t n = take_message t.around t.received n

-- A turn of the loop of `network_thread`.
unfoldable pub thread_turn : Turn → Thread → Thread
thread_turn t n =
    if n.client.connected
    then receive_step t n
    else if should_attempt_reconnect t.now n.client
    then (let tried = start_reconnect t n in
        if tried.client.connected then receive_step t tried else tried)
    else n

unfoldable pub network_thread : List Turn → Thread → Thread
network_thread [] n = n
network_thread (t ∷ turns) n = network_thread turns (thread_turn t n)

-- The end of the thread, and what `cleanup_network` does before it joins the thread.
unfoldable pub disconnect : Thread → Thread
disconnect n = close_socket (record n { client = record n.client { connected = false } })

-- A request: the state behind it, what was handed to `send_client_message`, and the result.
pub record Asked : Type 0 where
  pub client : ClientState
  pub request : Option ClientMessage
  pub result : ℤ

unfoldable pub start_matching : ℤ → ℤ → ClientState → Asked
start_matching now sent c =
    let matching = record c { current_screen = screen_matching; match_start_time = now } in
    let back = record matching { current_screen = screen_main } in
    if c.connected
    then record {
      client = if ltb_ℤ sent (pos 0) then back else matching;
      request = some (match_game (some c.username));
      result = pos 0;
    }
    else record { client = back; request = none; result = pos 0 }

unfoldable pub cancel_matching : ClientState → Asked
cancel_matching c = record {
  client = record c { current_screen = screen_main };
  request = if c.connected then some (cancel_match (some c.username)) else none;
  result = pos 0;
}

unfoldable pub send_chat_message : ℤ → Option Text → ClientState → Asked
send_chat_message now message c =
    if not c.connected
    then record {
      client =
          add_chat_message_safe now (codes "System") (codes "Cannot send message: not connected") c;
      request = none;
      result = pos 0;
    }
    else elim message [
      | none ↦ record { client = c; request = none; result = pos 0 }
      | some text ↦ record {
        client = c;
        request = if is_empty text then none else some (chat text);
        result = pos 0;
      }
    ]

-- The same test as the server's, on a pointer.
abbrev pub parse_chess_coordinate_network : Option Text → Option (ℤ × ℤ)
parse_chess_coordinate_network none = none
parse_chess_coordinate_network (some coord) = parse_chess_coordinate coord

abbrev pub no_request : ℤ → Text → ClientState → Asked
no_request now text c = record {
  client = add_chat_message_safe now (codes "System") text c;
  request = none;
  result = minus_one;
}

-- The request of a move whose squares can be read.
unfoldable pub request_move : ℤ → ℤ → Text → Text → ClientState → Asked
request_move now sent from to c = elim (parse_chess_coordinate from) [
  | none ↦ no_request now (codes "Invalid source coordinate") c
  | some _ ↦ elim (parse_chess_coordinate to) [
    | none ↦ no_request now (codes "Invalid destination coordinate") c
    | some _ ↦
        let request : Option ClientMessage = some (move (some (record { from = from; to = to }))) in
        if ltb_ℤ sent (pos 0)
        then record {
          client =
              add_chat_message_safe now (codes "System") (codes "Failed to send move request") c;
          request = request;
          result = minus_one;
        }
        else record { client = c; request = request; result = pos 0 }
  ]
]

unfoldable pub send_move_request : ℤ → ℤ → Option Text → Option Text → ClientState → Asked
send_move_request now sent from to c =
    if not c.connected
    then no_request now (codes "Cannot send move: not connected") c
    else elim from [
      | none ↦ record { client = c; request = none; result = minus_one }
      | some f ↦ elim to [
        | none ↦ record { client = c; request = none; result = minus_one }
        | some t ↦ request_move now sent f t c
      ]
    ]

unfoldable pub send_resign_request : ℤ → ℤ → ClientState → Asked
send_resign_request now sent c =
    let request : Option ClientMessage = some (resign (some c.username)) in
    if not c.connected
    then record { client = c; request = none; result = minus_one }
    else if ltb_ℤ sent (pos 0)
    then record {
      client =
          add_chat_message_safe now (codes "System") (codes "Failed to send resignation request") c;
      request = request;
      result = minus_one;
    }
    else record { client = c; request = request; result = pos 0 }
