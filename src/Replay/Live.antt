-- ===== src/Replay/Live.antt =====
-- The record and the position under the messages of the server (client/handlers/).
use multiplay_chess.Prelude.{
  if-Holds, ◌≡◌, refl, sym, ap, ◌∙◌, Bool-cases, inl, inr, some, ◌++◌, length, take, ℤ, pos, ◌==ℤ◌,
  Text, text_eq, arith, codes,
}
use multiplay_chess.Protocol.{
  MatchGameResponse, MoveBroadcast, GameEndBroadcast, ResignBroadcast, CheckBroadcast,
  ServerMessage, ping_res, echo_res, match_game_res, cancel_match_res, move_res, move_broadcast,
  game_end, chat_broadcast, resign_res, resign_broadcast, check_broadcast, error, msg_not_set,
}
use multiplay_chess.Client.{
  GameState, add_chat_message, apply_move_from_server, sync_timer_from_server,
}
use multiplay_chess.Pgn.{Disk, save_current_game}
use multiplay_chess.ClientState.{screen_main, ClientState, add_chat_message_safe, request_update}
use multiplay_chess.Handlers.{
  Around, Handled, handled, begin_game, match_found, resign_text, ended, mark_check, sync_clocks,
  follow_move, finish_game, announcement, handle_ping_response, handle_echo_response,
  handle_match_game_response, handle_cancel_match_response, handle_chat_broadcast,
  handle_error_response, handle_check_broadcast, handle_resign_response, handle_resign_broadcast,
  handle_game_end_broadcast, handle_move_response, handle_move_broadcast, dispatch_server_message,
}
use multiplay_chess.Handlers.Bounds.{add_chat_message-with_chat}
use multiplay_chess.Handlers.Fits.{assigned-Holds}
use multiplay_chess.Replay.Written.{Written, broadcast-Written}
use multiplay_chess.Replay.Recorded.{
  start, match_start, play_all, IsRecorded, IsFresh, not_applied, record_move-IsRecorded,
}

-- What leaves the position and the record alone.
same-IsRecorded :
    {s : GameState} (t : GameState)
    → IsRecorded s
    → t.game ≡ s.game
    → t.pgn_moves ≡ s.pgn_moves
    → t.pgn_move_count ≡ s.pgn_move_count
    → IsRecorded t
same-IsRecorded t r game moves count = record {
  number = r.number;
  counted = count ∙ r.counted;
  within = r.within;
  size = ap length moves ∙ r.size;
  tokens = rw moves r.tokens;
  in_step = game ∙ (r.in_step ∙ ap (λ ms. play_all (take r.number ms) start) (sym moves));
}

chat-IsRecorded :
    {s : GameState} (now : ℤ) (sender message : Text)
    → IsRecorded s
    → IsRecorded (add_chat_message now sender message s)
chat-IsRecorded {s} now sender message r =
    let (ms, n, e) = add_chat_message-with_chat now sender message s in
    rw e (same-IsRecorded _ r refl refl refl)

-- The client whose game is in step with its record.
abbrev pub InStep : ClientState → Type 0
InStep c = IsRecorded c.game_state

told-InStep :
    (c : ClientState) (now : ℤ) (sender message : Text)
    → InStep c
    → InStep (add_chat_message_safe now sender message c)
unfolding add_chat_message_safe
told-InStep c now sender message r = chat-IsRecorded now sender message r

save_current_game-IsRecorded :
    {s : GameState} (disk : Disk) → IsRecorded s → IsRecorded (save_current_game disk s).1
unfolding save_current_game
save_current_game-IsRecorded {s} disk r = elim (Bool-cases (s.pgn_move_count ==ℤ pos 0)) [
  | inl none_yet ↦ rw none_yet r
  | inr some_moves ↦ elim (Bool-cases disk.folder_ready) [
    | inl ready ↦ rw (some_moves, ready) (same-IsRecorded _ r refl refl refl)
    | inr no_folder ↦ rw (some_moves, no_folder) r
  ]
]

-- A match that is found starts a record.
begin_game-IsRecorded :
    (a : Around) (m : MatchGameResponse) (username : Text) (s : GameState)
    → length s.pgn_moves ≡ 512
    → IsRecorded (begin_game a m username s)
unfolding begin_game
begin_game-IsRecorded a m username s size = record {
  number = 0;
  counted = refl;
  within = omega arith;
  size = size;
  tokens = tt;
  in_step = match_start _;
}

mark_check-IsRecorded :
    (b : MoveBroadcast) (s : GameState) → IsRecorded s → IsRecorded (mark_check b s)
mark_check-IsRecorded b s r = same-IsRecorded _ r (ground arith) (ground arith) (ground arith)

sync_clocks-IsRecorded :
    (a : Around) (b : MoveBroadcast) (s : GameState) → IsRecorded s → IsRecorded (sync_clocks a b s)
unfolding sync_timer_from_server
sync_clocks-IsRecorded a b s r = same-IsRecorded _ r (ground arith) (ground arith) (ground arith)

module _ (a : Around) (c : ClientState) (r : InStep c) where
  match-InStep : (m : MatchGameResponse) → InStep (handle_match_game_response a m c).client
  unfolding handle_match_game_response match_found
  match-InStep m =
      let told = told-InStep c a.now (codes "System") (codes "Match found! Game starting...") r in
      let back = record (add_chat_message_safe a.now (codes "System") m.message c) {
        current_screen = screen_main;
      } in
      if-Holds (λ (h : Handled). InStep h.client) {y = handled back} m.success
        (assigned-Holds (λ (h : Handled). InStep h.client) m.assigned_team r
          (begin_game-IsRecorded a m c.username _ told.size))
        (told-InStep c a.now (codes "System") m.message r)

  check-InStep : (b : CheckBroadcast) → InStep (handle_check_broadcast a b c).client
  unfolding handle_check_broadcast add_chat_message_safe
  check-InStep b =
      chat-IsRecorded a.now _ _ (same-IsRecorded _ r (ground arith) (ground arith) (ground arith))

  end-InStep : (b : GameEndBroadcast) → InStep (handle_game_end_broadcast a b c).client
  unfolding handle_game_end_broadcast
  end-InStep b = chat-IsRecorded a.now _ _ (same-IsRecorded (ended b c.game_state) r refl refl refl)

  resign-InStep : (b : ResignBroadcast) → InStep (handle_resign_broadcast a b c).client
  unfolding handle_resign_broadcast add_chat_message_safe
  resign-InStep b =
      let told =
        chat-IsRecorded a.now (codes "System") (resign_text (text_eq b.player_id c.username)) r in
      let decided = same-IsRecorded _ told refl refl refl in
      same-IsRecorded _ (save_current_game-IsRecorded a.disk decided) refl refl refl

  finish-InStep : (b : MoveBroadcast) → InStep (finish_game a b c).client
  unfolding finish_game add_chat_message_safe
  finish-InStep b =
      same-IsRecorded _ (save_current_game-IsRecorded a.disk (chat-IsRecorded a.now _ _ r)) refl
        refl refl

  follow-InStep :
      (b : MoveBroadcast)
      → IsFresh (take 5 (b.from ++ b.to)) c.game_state
      → InStep (follow_move a b c)
  unfolding follow_move
  follow-InStep b f =
      let s = c.game_state in
      elim (Bool-cases (apply_move_from_server s.game (some b.from) (some b.to)).0) [
        | inl ok ↦
            let made = record_move-IsRecorded s b.from b.to r f ok in
            rw ok (sync_clocks-IsRecorded a b _ (mark_check-IsRecorded b _ made))
        | inr refused ↦ rw refused (
            told-InStep _ a.now _ _
              (same-IsRecorded _ r (not_applied s.game b.from b.to refused) refl refl))
      ]

told-IsFresh :
    (c : ClientState) (now : ℤ) (sender message : Text) {move : Text}
    → IsFresh move c.game_state
    → IsFresh move (add_chat_message_safe now sender message c).game_state
unfolding add_chat_message_safe
told-IsFresh c now sender message f =
    let (ms, n, e) = add_chat_message-with_chat now sender message c.game_state in
    rw e (record { place = f.place; other = f.other })

-- A move broadcast is fresh: there is a place to record its move, which is not the last one
-- recorded. Nothing is asked of another message.
abbrev pub Expected : ServerMessage → GameState → Type 0
Expected (move_broadcast b) s = IsFresh (take 5 (b.from ++ b.to)) s
Expected _ s = Unit

broadcast-InStep :
    (a : Around) (c : ClientState) (b : MoveBroadcast)
    → InStep c
    → IsFresh (take 5 (b.from ++ b.to)) c.game_state
    → InStep (handle_move_broadcast a b c).client
unfolding handle_move_broadcast
broadcast-InStep a c b r f =
    let text = announcement b in
    let followed =
      follow-InStep a (add_chat_message_safe a.now (codes "Game") text c)
        (told-InStep c a.now (codes "Game") text r) b
        (told-IsFresh c a.now (codes "Game") text f) in
    if-Holds (λ (h : Handled). InStep h.client) b.game_ends (finish-InStep a _ followed b) followed

dispatch_keeps :
    (a : Around) (m : ServerMessage) (c : ClientState)
    → InStep c
    → Expected m c.game_state
    → InStep (dispatch_server_message a m c).client
unfolding dispatch_server_message handle_ping_response handle_echo_response
    handle_cancel_match_response handle_chat_broadcast handle_error_response handle_move_response
    handle_resign_response
dispatch_keeps a (ping_res message) c r f = r
dispatch_keeps a (echo_res message) c r f = told-InStep c a.now _ _ r
dispatch_keeps a (match_game_res m) c r f = match-InStep a c r m
dispatch_keeps a (cancel_match_res m) c r f = told-InStep c a.now _ _ r
dispatch_keeps a (chat_broadcast b) c r f = told-InStep c a.now _ _ r
dispatch_keeps a (game_end b) c r f = end-InStep a c r b
dispatch_keeps a (error m) c r f = told-InStep c a.now _ _ r
dispatch_keeps a (move_res m) c r f =
    if-Holds InStep {x = request_update c} m.success r (told-InStep c a.now _ _ r)
dispatch_keeps a (move_broadcast b) c r f = broadcast-InStep a c b r f
dispatch_keeps a (check_broadcast b) c r f = check-InStep a c r b
dispatch_keeps a (resign_res m) c r f = told-InStep c a.now _ _ r
dispatch_keeps a (resign_broadcast b) c r f = resign-InStep a c r b
dispatch_keeps a msg_not_set c r f = told-InStep c a.now _ _ r

-- A move that is broadcast is applied and written down where the client can apply it, and changes
-- neither where it cannot. Nothing is said of another message.
abbrev pub Follows : ServerMessage → GameState → GameState → Type 0
Follows (move_broadcast b) s t = Written b s t
Follows _ s t = Unit

dispatch-Follows :
    (a : Around) (m : ServerMessage) (c : ClientState)
    → InStep c
    → Expected m c.game_state
    → Follows m c.game_state (dispatch_server_message a m c).client.game_state
unfolding dispatch_server_message
dispatch-Follows a (ping_res message) c r f = tt
dispatch-Follows a (echo_res message) c r f = tt
dispatch-Follows a (match_game_res m) c r f = tt
dispatch-Follows a (cancel_match_res m) c r f = tt
dispatch-Follows a (chat_broadcast b) c r f = tt
dispatch-Follows a (game_end b) c r f = tt
dispatch-Follows a (error m) c r f = tt
dispatch-Follows a (move_res m) c r f = tt
dispatch-Follows a (move_broadcast b) c r f =
    broadcast-Written a b c (told-InStep c a.now (codes "Game") (announcement b) r)
      (told-IsFresh c a.now (codes "Game") (announcement b) f)
dispatch-Follows a (check_broadcast b) c r f = tt
dispatch-Follows a (resign_res m) c r f = tt
dispatch-Follows a (resign_broadcast b) c r f = tt
dispatch-Follows a msg_not_set c r f = tt

-- Every message of the server keeps the client's position in step with its record: the moves written
-- down since the match began lead from the start to the position. A move broadcast must be fresh: it
-- is applied and written into the next place, or, where the client cannot apply it, changes neither
-- the position nor the record.
pub dispatch_server_message-InStep :
    (a : Around) (m : ServerMessage) (c : ClientState)
    → InStep c
    → Expected m c.game_state
    → InStep (dispatch_server_message a m c).client
      × Follows m c.game_state (dispatch_server_message a m c).client.game_state
dispatch_server_message-InStep a m c r f = (dispatch_keeps a m c r f, dispatch-Follows a m c r f)
