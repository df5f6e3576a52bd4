-- ===== src/Connection/Reconnect.antt =====
-- Reconnecting to a server that can be reached (client/client_network.c).
use mathlib.Core.Path.{subst}
use multiplay_chess.Prelude.{
  if-True, if-False, ◌≡◌, refl, sym, ap, ◌∙◌, Bool, Bool-cases, not, ◌||◌, any, true, false, inl,
  inr, if◌then◌else◌, some, List, [], ◌∷◌, ℤ, pos, minus_one, ◌-ℤ◌, ◌≤ℤ◌, ltb_ℤ, arith,
}
use multiplay_chess.Protocol.{ServerMessage}
use multiplay_chess.ClientState.{ClientState}
use multiplay_chess.Handlers.{dispatch_server_message}
use multiplay_chess.Connection.{
  Address, try_addresses, connect_to_server, Thread, Turn, should_attempt_reconnect, send_ping,
  start_reconnect, take_message, thread_turn,
}
use multiplay_chess.Connection.Link.{SameLink, dispatch-SameLink}

abbrev pub usable : Address → Bool
usable a = not (ltb_ℤ a.socket (pos 0) || not a.connects)

try_usable : (as' : List Address) → any usable as' ≡ true → pos 0 ≤ℤ try_addresses as'
unfolding try_addresses
try_usable [] h = absurd (cc)
try_usable (a ∷ others) h = elim (Bool-cases (ltb_ℤ a.socket (pos 0) || not a.connects)) [
  | inl skipped ↦ rw skipped (try_usable others (rw (skipped, any) at h))
  | inr taken ↦ rw taken (ground arith)
]

attempt_due :
    (now : ℤ) (c : ClientState)
    → c.reconnecting ≡ false
    → pos 5 ≤ℤ (now -ℤ c.last_reconnect_attempt)
    → should_attempt_reconnect now c ≡ true
unfolding should_attempt_reconnect
attempt_due now c settled long = ground arith

abbrev Up : ℤ → ClientState → Type 0
Up now c = (c.connected ≡ true) × (pos 0 ≤ℤ c.socket_fd) × (c.last_reconnect_attempt ≡ now)

Up-same : (now : ℤ) (d c : ClientState) → SameLink d c → Up now c → Up now d
Up-same now d c (con, fd, re, last) (up, low, at) = (con ∙ up, rw fd low, last ∙ at)

start_reconnect-Up :
    (t : Turn) (n : Thread) (addresses : List Address)
    → t.addresses ≡ some addresses
    → any usable addresses ≡ true
    → pos 0 ≤ℤ t.ping_sent
    → Up t.now (start_reconnect t n).client
unfolding start_reconnect send_ping connect_to_server
start_reconnect-Up t n addresses there reachable pinged =
    let low = try_usable addresses reachable in
    let fd : connect_to_server t.addresses ≡ try_addresses addresses =
      ap connect_to_server there
      ∙ ap (λ b. if b then minus_one else try_addresses addresses)
          (not_less (try_addresses addresses) low) in
    let here : ltb_ℤ (connect_to_server t.addresses) (pos 0) ≡ false =
      ap (λ d. ltb_ℤ d (pos 0)) fd ∙ not_less (try_addresses addresses) low in
    if-False (λ (m : Thread). Up t.now m.client) _ _ (ltb_ℤ (connect_to_server t.addresses) (pos 0))
      here
      (if-False (λ (m : Thread). Up t.now m.client) _ _ (ltb_ℤ t.ping_sent (pos 0))
        (not_less t.ping_sent pinged) (refl, rw fd low, refl))
  where
    not_less : (z : ℤ) → pos 0 ≤ℤ z → ltb_ℤ z (pos 0) ≡ false
    not_less z h = ground arith

-- From every state without a connection in which no attempt is under way, five seconds after the last
-- attempt: if one of the server's addresses can be reached, the ping goes out and a message comes in, the next
-- turn of the thread leaves the client connected, on a descriptor, with that attempt as the last.
pub reconnects :
    (n : Thread) (t : Turn) (addresses : List Address) (msg : ServerMessage)
    → n.client.reconnecting ≡ false
    → n.client.connected ≡ false
    → pos 5 ≤ℤ (t.now -ℤ n.client.last_reconnect_attempt)
    → t.addresses ≡ some addresses
    → any usable addresses ≡ true
    → pos 0 ≤ℤ t.ping_sent
    → t.received ≡ some msg
    → ((thread_turn t n).client.connected ≡ true)
      × (pos 0 ≤ℤ (thread_turn t n).client.socket_fd)
      × ((thread_turn t n).client.last_reconnect_attempt ≡ t.now)
unfolding thread_turn take_message
reconnects n t addresses msg settled off long there reachable pinged message =
    let due : should_attempt_reconnect t.now n.client ≡ true =
      attempt_due t.now n.client settled long in
    let tried = start_reconnect t n in
    let up = start_reconnect-Up t n addresses there reachable pinged in
    let taken : Up t.now (take_message t.around t.received tried).client =
      subst (λ m. Up t.now (take_message t.around m tried).client) (sym message)
        (Up-same t.now (dispatch_server_message t.around msg tried.client).client tried.client
          (dispatch-SameLink t.around msg tried.client) up) in
    if-False (λ (m : Thread). Up t.now m.client) _ _ n.client.connected off
      (if-True (λ (m : Thread). Up t.now m.client) _ _ (should_attempt_reconnect t.now n.client) due
        (if-True (λ (m : Thread). Up t.now m.client) _ _ tried.client.connected up.0 taken))
