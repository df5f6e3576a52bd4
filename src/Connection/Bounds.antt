-- ===== src/Connection/Bounds.antt =====
-- The sizes of the client's texts and counts under turns of the network thread and requests of the user
-- (client/client_network.c).
use multiplay_chess.Prelude.{
  if-Holds, ◌≡◌, refl, Option-cases, not, inl, inr, Option, none, some, ℤ, pos, if◌then◌else◌, true,
  false, codes, leb_ℤ, ltb_ℤ, Text, arith,
}
use multiplay_chess.Protocol.{ServerMessage}
use multiplay_chess.ClientState.{ClientState, add_chat_message_safe}
use multiplay_chess.Coordinate.{parse_chess_coordinate}
use multiplay_chess.Handlers.{Around}
use multiplay_chess.Handlers.Fits.{
  IsClient, SameTexts, same-IsClient, told-IsClient, dispatch_server_message-IsClient,
}
use multiplay_chess.Connection.{
  Asked, connect_to_server, Thread, Turn, on_game_screen, should_attempt_reconnect, close_socket,
  send_ping, start_reconnect, lose_connection, take_message, thread_turn, start_matching,
  cancel_matching, send_chat_message, request_move, send_move_request, send_resign_request,
}
use multiplay_chess.Connection.Link.{SameLink, still}

-- What leaves every text of the client alone.
pub quiet-IsClient :
    (c d : ClientState) → IsClient c → d.game_state ≡ c.game_state → SameTexts d c → IsClient d
quiet-IsClient c d k game texts = same-IsClient d k (rw game k.bounded) texts

pub close_socket-IsClient : (n : Thread) → IsClient n.client → IsClient (close_socket n).client
unfolding close_socket
close_socket-IsClient n k =
    if-Holds (λ (m : Thread). IsClient m.client) (leb_ℤ (pos 0) n.client.socket_fd)
      (quiet-IsClient n.client _ k refl (refl, refl, refl, refl, refl, refl, refl)) k

-- The notice of a lost connection is fixed.
lost-IsClient :
    (c : ClientState)
    → IsClient c
    → IsClient (
        if on_game_screen c.current_screen
        then record c {
          connected = false;
          connection_lost = true;
          disconnect_message = codes "Connection lost";
          screen_update_requested = true;
        }
        else record c { connected = false })
lost-IsClient c k =
    if-Holds IsClient (on_game_screen c.current_screen)
      (record {
        bounded = k.bounded;
        title_fits = k.title_fits;
        resign_fits = k.resign_fits;
        end_fits = k.end_fits;
        name_fits = k.name_fits;
        lost_fits = omega arith;
        line_size = k.line_size;
        line_low = k.line_low;
        line_high = k.line_high;
      })
      (quiet-IsClient c _ k refl (refl, refl, refl, refl, refl, refl, refl))

pub lose_connection-IsClient :
    (n : Thread) → IsClient n.client → IsClient (lose_connection n).client
unfolding lose_connection
lose_connection-IsClient n k = close_socket-IsClient _ (lost-IsClient n.client k)

pub take_message-IsClient :
    (a : Around) (m : Option ServerMessage) (n : Thread)
    → IsClient n.client
    → IsClient (take_message a m n).client
unfolding take_message
take_message-IsClient a none n k = lose_connection-IsClient n k
take_message-IsClient a (some m) n k = dispatch_server_message-IsClient a m k

pub start_reconnect-IsClient :
    (t : Turn) (n : Thread) → IsClient n.client → IsClient (start_reconnect t n).client
unfolding start_reconnect send_ping
start_reconnect-IsClient t n k =
    let fd = connect_to_server t.addresses in
    if-Holds (λ (m : Thread). IsClient m.client) (ltb_ℤ fd (pos 0))
      (quiet-IsClient n.client _ k refl (refl, refl, refl, refl, refl, refl, refl))
      (if-Holds (λ (m : Thread). IsClient m.client) (ltb_ℤ t.ping_sent (pos 0))
        (quiet-IsClient n.client _ k refl (refl, refl, refl, refl, refl, refl, refl))
        (quiet-IsClient n.client _ k refl (refl, refl, refl, refl, refl, refl, refl)))

pub thread_turn-IsClient :
    (t : Turn) (n : Thread) → IsClient n.client → IsClient (thread_turn t n).client
unfolding thread_turn
thread_turn-IsClient t n k =
    let tried = start_reconnect-IsClient t n k in
    if-Holds (λ (m : Thread). IsClient m.client) n.client.connected
      (take_message-IsClient t.around t.received n k)
      (if-Holds (λ (m : Thread). IsClient m.client) (should_attempt_reconnect t.now n.client)
        (if-Holds (λ (m : Thread). IsClient m.client) (start_reconnect t n).client.connected
          (take_message-IsClient t.around t.received _ tried) tried)
        k)

-- A request of the user keeps the connection and the bounds.
module _ (c : ClientState) (k : IsClient c) where
  abbrev pub Keeps : ClientState → Type 0
  Keeps d = SameLink d c × IsClient d

  same : Keeps c
  same = (still c, k)

  said : (now : ℤ) (sender message : Text) → Keeps (add_chat_message_safe now sender message c)
  unfolding add_chat_message_safe
  said now sender message = (still c, told-IsClient now sender message k)

  pub start_matching-Keeps : (now sent : ℤ) → Keeps (start_matching now sent c).client
  unfolding start_matching
  start_matching-Keeps now sent =
      if-Holds (λ (q : Asked). Keeps q.client) c.connected
        (if-Holds Keeps (ltb_ℤ sent (pos 0))
          (still c, quiet-IsClient c _ k refl (refl, refl, refl, refl, refl, refl, refl))
          (still c, quiet-IsClient c _ k refl (refl, refl, refl, refl, refl, refl, refl)))
        (still c, quiet-IsClient c _ k refl (refl, refl, refl, refl, refl, refl, refl))

  pub cancel_matching-Keeps : Keeps (cancel_matching c).client
  unfolding cancel_matching
  cancel_matching-Keeps =
      (still c, quiet-IsClient c _ k refl (refl, refl, refl, refl, refl, refl, refl))

  pub send_chat_message-Keeps :
      (now : ℤ) (message : Option Text) → Keeps (send_chat_message now message c).client
  unfolding send_chat_message
  send_chat_message-Keeps now none =
      if-Holds (λ (q : Asked). Keeps q.client) (not c.connected) (said now _ _) same
  send_chat_message-Keeps now (some text) =
      if-Holds (λ (q : Asked). Keeps q.client) (not c.connected) (said now _ _) same

  request_move-Keeps :
      (now sent : ℤ) (from to : Text) → Keeps (request_move now sent from to c).client
  unfolding request_move
  request_move-Keeps now sent from to = elim (Option-cases (parse_chess_coordinate from)) [
    | inl unread ↦ rw (unread, request_move) (said now _ _)
    | inr (p, read) ↦ elim (Option-cases (parse_chess_coordinate to)) [
      | inl unread ↦ rw (read, unread, request_move) (said now _ _)
      | inr (q, read') ↦
          rw (read, read', request_move)
            (if-Holds (λ (q : Asked). Keeps q.client) (ltb_ℤ sent (pos 0)) (said now _ _) same)
    ]
  ]

  pub send_move_request-Keeps :
      (now sent : ℤ) (from to : Option Text) → Keeps (send_move_request now sent from to c).client
  unfolding send_move_request
  send_move_request-Keeps now sent none to =
      if-Holds (λ (q : Asked). Keeps q.client) (not c.connected) (said now _ _) same
  send_move_request-Keeps now sent (some from) none =
      if-Holds (λ (q : Asked). Keeps q.client) (not c.connected) (said now _ _) same
  send_move_request-Keeps now sent (some from) (some to) =
      if-Holds (λ (q : Asked). Keeps q.client) (not c.connected) (said now _ _)
        (request_move-Keeps now sent from to)

  pub send_resign_request-Keeps : (now sent : ℤ) → Keeps (send_resign_request now sent c).client
  unfolding send_resign_request
  send_resign_request-Keeps now sent =
      if-Holds (λ (q : Asked). Keeps q.client) (not c.connected) same
        (if-Holds (λ (q : Asked). Keeps q.client) (ltb_ℤ sent (pos 0)) (said now _ _) same)
