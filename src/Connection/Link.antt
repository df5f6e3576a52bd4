-- ===== src/Connection/Link.antt =====
-- The flag and the descriptor of the connection through the turns of the network thread and the user's
-- requests in between (client/client_network.c).
use multiplay_chess.Prelude.{
  if-Holds, ◌≡◌, ◌⊎◌, refl, ◌∙◌, Bool-cases, true, false, inl, inr, Option, none, some, List, ◌++◌,
  ℤ, pos, minus_one, ◌≤ℤ◌, leb_ℤ, ltb_ℤ, codes, arith,
}
use multiplay_chess.Protocol.{
  MoveBroadcast, ServerMessage, ping_res, echo_res, match_game_res, cancel_match_res, move_res,
  move_broadcast, game_end, chat_broadcast, resign_res, resign_broadcast, check_broadcast, error,
  msg_not_set,
}
use multiplay_chess.ClientState.{screen_main, ClientState, add_chat_message_safe, request_update}
use multiplay_chess.Handlers.{
  Around, Handled, handled, cut, match_found, announcement, follow_move, finish_game,
  handle_ping_response, handle_echo_response, handle_match_game_response,
  handle_cancel_match_response, handle_chat_broadcast, handle_error_response,
  handle_check_broadcast, handle_resign_response, handle_resign_broadcast,
  handle_game_end_broadcast, handle_move_response, handle_move_broadcast, dispatch_server_message,
}
use multiplay_chess.Handlers.Fits.{assigned-Holds}
use multiplay_chess.Client.{apply_move_from_server}
use multiplay_chess.Connection.{
  Address, try_addresses, connect_to_server, Thread, Turn, should_attempt_reconnect, close_socket,
  send_ping, start_reconnect, lose_connection, take_message, receive_step, thread_turn,
}

-- Connected with a descriptor, or not connected and with none; and no reconnection stays pending.
pub record IsLinked (c : ClientState) : Type 0 where
  pub agree :
      (c.connected ≡ true) × (pos 0 ≤ℤ c.socket_fd)
      ⊎ (c.connected ≡ false) × (c.socket_fd ≡ minus_one)
  pub settled : c.reconnecting ≡ false

-- What leaves the connection alone.
abbrev pub SameLink : ClientState → ClientState → Type 0
SameLink d c =
    (d.connected ≡ c.connected)
    × (d.socket_fd ≡ c.socket_fd)
    × (d.reconnecting ≡ c.reconnecting)
    × (d.last_reconnect_attempt ≡ c.last_reconnect_attempt)

pub same-IsLinked : (d c : ClientState) → SameLink d c → IsLinked c → IsLinked d
same-IsLinked d c (con, fd, re, last) k = record {
  agree = rw (con, fd) k.agree;
  settled = re ∙ k.settled;
}

pub still : (c : ClientState) → SameLink c c
still c = (refl, refl, refl, refl)

broadcast-SameLink :
    (a : Around) (b : MoveBroadcast) (c : ClientState)
    → SameLink (handle_move_broadcast a b c).client c
unfolding handle_move_broadcast follow_move finish_game add_chat_message_safe
broadcast-SameLink a b c =
    let told = add_chat_message_safe a.now (codes "Game") (announcement b) c in
    let g = apply_move_from_server told.game_state.game (some b.from) (some b.to) in
    let followed : SameLink (follow_move a b told) c =
      if-Holds (λ (d : ClientState). SameLink d c) g.0 (still c) (still c) in
    if-Holds (λ (h : Handled). SameLink h.client c) b.game_ends followed followed

-- No message of the server touches the connection.
pub dispatch-SameLink :
    (a : Around) (m : ServerMessage) (c : ClientState)
    → SameLink (dispatch_server_message a m c).client c
unfolding dispatch_server_message handle_ping_response handle_echo_response
    handle_cancel_match_response handle_chat_broadcast handle_error_response handle_move_response
    handle_resign_response handle_match_game_response match_found handle_check_broadcast
    handle_game_end_broadcast handle_resign_broadcast add_chat_message_safe
dispatch-SameLink a (ping_res message) c = still c
dispatch-SameLink a (echo_res message) c = still c
dispatch-SameLink a (match_game_res m) c =
    if-Holds (λ (h : Handled). SameLink h.client c)
      {y = handled (record (add_chat_message_safe a.now (codes "System") m.message c) {
        current_screen = screen_main;
      })}
      m.success
      (assigned-Holds (λ (h : Handled). SameLink h.client c) {x = handled c}
        {y = handled (match_found a m c)} m.assigned_team (still c) (still c))
      (still c)
dispatch-SameLink a (cancel_match_res m) c = still c
dispatch-SameLink a (chat_broadcast b) c = still c
dispatch-SameLink a (game_end b) c = still c
dispatch-SameLink a (error m) c = still c
dispatch-SameLink a (move_res m) c =
    if-Holds (λ (d : ClientState). SameLink d c) {x = request_update c}
      {y = add_chat_message_safe a.now (codes "System") (cut (codes "Move failed: " ++ m.message))
        c}
      m.success (still c) (still c)
dispatch-SameLink a (move_broadcast b) c = broadcast-SameLink a b c
dispatch-SameLink a (check_broadcast b) c = still c
dispatch-SameLink a (resign_res m) c = still c
dispatch-SameLink a (resign_broadcast b) c = still c
dispatch-SameLink a msg_not_set c = still c

connect_to_server_lem :
    (addresses : Option (List Address))
    → (connect_to_server addresses ≡ minus_one)
      ⊎ (pos 0 ≤ℤ connect_to_server addresses)
        × (ltb_ℤ (connect_to_server addresses) (pos 0) ≡ false)
unfolding connect_to_server
connect_to_server_lem none = inl refl
connect_to_server_lem (some as') = elim (Bool-cases (ltb_ℤ (try_addresses as') (pos 0))) [
  | inl failed ↦ inl (rw failed refl)
  | inr open_socket ↦ inr (rw open_socket (ground arith, open_socket))
]

send_ping-IsLinked :
    (result : ℤ) (n : Thread) → IsLinked n.client → IsLinked (send_ping result n).client
unfolding send_ping
send_ping-IsLinked result n k =
    if-Holds (λ (m : Thread). IsLinked m.client) (ltb_ℤ result (pos 0))
      (record { agree = inr (refl, refl); settled = k.settled }) k

start_reconnect-IsLinked : (t : Turn) (n : Thread) → IsLinked (start_reconnect t n).client
unfolding start_reconnect
start_reconnect-IsLinked t n = elim (connect_to_server_lem t.addresses) [
  | inl failed ↦ rw failed (record { agree = inr (refl, refl); settled = refl })
  | inr (reached, here) ↦
      rw here
        (send_ping-IsLinked t.ping_sent _ (record { agree = inl (refl, reached); settled = refl }))
]

pub close_socket-IsLinked :
    (n : Thread)
    → n.client.reconnecting ≡ false
    → n.client.connected ≡ false
    → minus_one ≤ℤ n.client.socket_fd
    → IsLinked (close_socket n).client
unfolding close_socket
close_socket-IsLinked n settled off low = elim (Bool-cases (leb_ℤ (pos 0) n.client.socket_fd)) [
  | inl is_open ↦ rw is_open (record { agree = inr (off, refl); settled = settled })
  | inr shut ↦ rw shut (record { agree = inr (off, ground arith); settled = settled })
]

pub descriptor : (c : ClientState) → IsLinked c → minus_one ≤ℤ c.socket_fd
descriptor c k = elim k.agree [ inl (on, fd) ↦ omega arith | inr (off, fd) ↦ rw fd (omega arith) ]

lose_connection-IsLinked : (n : Thread) → IsLinked n.client → IsLinked (lose_connection n).client
unfolding lose_connection
lose_connection-IsLinked n k =
    let low = descriptor n.client k in
    close_socket-IsLinked _ (ground (arith, k.settled)) (ground arith) (ground arith)

take_message-IsLinked :
    (a : Around) (m : Option ServerMessage) (n : Thread)
    → IsLinked n.client
    → IsLinked (take_message a m n).client
unfolding take_message
take_message-IsLinked a none n k = lose_connection-IsLinked n k
take_message-IsLinked a (some m) n k = same-IsLinked _ n.client (dispatch-SameLink a m n.client) k

receive_step-IsLinked :
    (t : Turn) (n : Thread) → IsLinked n.client → IsLinked (receive_step t n).client
receive_step-IsLinked t n k = take_message-IsLinked t.around t.received n k

pub thread_turn-IsLinked :
    (t : Turn) (n : Thread) → IsLinked n.client → IsLinked (thread_turn t n).client
unfolding thread_turn
thread_turn-IsLinked t n k =
    let tried = start_reconnect-IsLinked t n in
    if-Holds (λ (m : Thread). IsLinked m.client) n.client.connected (receive_step-IsLinked t n k)
      (if-Holds (λ (m : Thread). IsLinked m.client) (should_attempt_reconnect t.now n.client)
        (if-Holds (λ (m : Thread). IsLinked m.client) (start_reconnect t n).client.connected
          (receive_step-IsLinked t _ tried) tried)
        k)
