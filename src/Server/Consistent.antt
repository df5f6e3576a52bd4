-- ===== src/Server/Consistent.antt =====
-- The match manager of the server under the messages of clients (server/handlers/*.c,
-- server/server_network.c).
use multiplay_chess.Prelude.{
  ℕ, ◌≡◌, refl, ◌∙◌, Bool, true, false, Bool-cases, if◌then◌else◌, Option, none, some, Option-cases,
  inl, inr, get_elem?, set, length-set, count-set, ℤ, arith, is_empty, Text,
}
use multiplay_chess.Protocol.{
  ServerMessage, ClientMessage, MoveRequest, ping, echo, chat, match_game, cancel_match, resign,
  move, unset,
}
use multiplay_chess.Network.{Net}
use multiplay_chess.Match.{
  ActiveGame, MatchManager, MatchResult, Readings, game_runs, find_slot, plays_on,
  add_player_to_matching, find_game_by_player_fd, remove_game,
}
use multiplay_chess.Match.Leave.{handle_player_disconnect}
use multiplay_chess.Fen.Reach.{Reached, after_move}
use multiplay_chess.Match.Positions.{Positions-set}
use multiplay_chess.Match.Slots.{find_slot-some}
use multiplay_chess.Match.Counts.{
  IsConsistent, add_player_to_matching-IsConsistent, remove_player_from_matching-IsConsistent,
  remove_game-IsConsistent, end_game-IsConsistent, handle_player_disconnect-IsConsistent,
}
use multiplay_chess.Server.Session.{
  Server, reply, reply_checked, send_error_response, handle_ping_message, handle_echo_message,
  broadcast_chat, handle_chat_message, announce_game, answer_match, handle_match_game_message,
  handle_cancel_match_message, handle_resign_message,
}
use multiplay_chess.Server.Turn.{Seat, send_move_error, seat_of, try_move, handle_move_message}
use multiplay_chess.Server.Outcome.{moved, holding, try_move_outcome}
use multiplay_chess.Server.Verdict.{over}
use multiplay_chess.Rule.{apply_move}
use multiplay_chess.Server.Dispatch.{
  handle_unknown_message, dispatch_client_message, report_failure, handle_client_message,
}

-- Answers touch the messages alone.
pub reply-manager :
    (net : Net) (fd : ℤ) (msg : ServerMessage) (s : Server)
    → (reply net fd msg s).1.manager ≡ s.manager
unfolding reply
reply-manager net fd msg s = refl

chat-manager :
    (net : Net) (fd : ℤ) (msg : ClientMessage) (s : Server)
    → (handle_chat_message net fd msg s).1.manager ≡ s.manager
unfolding handle_chat_message broadcast_chat reply_checked reply
chat-manager net fd (chat t) s = ground arith
chat-manager net fd _ s = refl

announce-manager :
    (net : Net) (fd : ℤ) (r : MatchResult) (s : Server)
    → (announce_game net fd r s).1.manager ≡ s.manager
unfolding announce_game reply
announce-manager net fd r s = ground arith

answer_match-manager :
    (net : Net) (fd : ℤ) (r : MatchResult) (s : Server)
    → (answer_match net fd r s).1.manager ≡ s.manager
unfolding answer_match send_error_response reply
answer_match-manager net fd r s = ground (arith, announce-manager net fd r s)

update-IsConsistent :
    (m : MatchManager) (j : ℕ) (g g' : ActiveGame)
    → IsConsistent m
    → get_elem? m.active_games j ≡ some g
    → g'.is_active ≡ g.is_active
    → (g'.is_active ≡ true → Reached g'.game_state)
    → IsConsistent (record m { active_games = set m.active_games j g' })
update-IsConsistent m j g g' c here same reached =
    let n = count-set game_runs m.active_games j g g' here in
    record {
      waiting_size = c.waiting_size;
      games_size = length-set m.active_games j g' ∙ c.games_size;
      waiting_exact = c.waiting_exact;
      games_exact = ground (arith, c.games_exact);
      one_waits = c.one_waits;
      positions = Positions-set m.active_games j g' c.positions reached;
    }

abbrev Keeps : Option (ℤ × Server) → Type 0
Keeps none = Unit
Keeps (some (r, s)) = IsConsistent s.manager

match_game-Keeps :
    (net : Net) (now : Readings) (fd : ℤ) (msg : ClientMessage) (s : Server)
    → IsConsistent s.manager
    → Keeps (handle_match_game_message net now fd msg s)
unfolding handle_match_game_message send_error_response reply
match_game-Keeps net now fd (match_game (some id)) s c = elim (Bool-cases (is_empty id)) [
  | inl empty ↦ rw (empty, handle_match_game_message) c
  | inr named ↦ elim (Option-cases (add_player_to_matching now fd (some id) s.manager)) [
    | inl fault ↦ rw (named, fault, handle_match_game_message) tt
    | inr ((m, r), added) ↦
        rw (named, added, handle_match_game_message)
          (rw (answer_match-manager net fd r (record s { manager = m }))
            (add_player_to_matching-IsConsistent now fd (some id) s.manager c added))
  ]
]
match_game-Keeps net now fd _ s c = c

cancel-IsConsistent :
    (net : Net) (fd : ℤ) (msg : ClientMessage) (s : Server)
    → IsConsistent s.manager
    → IsConsistent (handle_cancel_match_message net fd msg s).1.manager
unfolding handle_cancel_match_message send_error_response reply
cancel-IsConsistent net fd (cancel_match (some id)) s c = elim (Bool-cases (is_empty id)) [
  | inl empty ↦ rw (empty, handle_cancel_match_message) c
  | inr named ↦
      rw (named, handle_cancel_match_message)
        (remove_player_from_matching-IsConsistent fd s.manager c)
]
cancel-IsConsistent net fd _ s c = c

resign-IsConsistent :
    (net : Net) (fd : ℤ) (msg : ClientMessage) (s : Server)
    → IsConsistent s.manager
    → IsConsistent (handle_resign_message net fd msg s).1.manager
unfolding handle_resign_message send_error_response reply
resign-IsConsistent net fd (resign (some id)) s c =
    elim (Option-cases (find_slot (plays_on fd) s.manager.active_games)) [
      | inl absent ↦ rw (absent, handle_resign_message) c
      | inr ((j, g), found) ↦
          let (here, plays) = find_slot-some (plays_on fd) s.manager.active_games found in
          rw (found, handle_resign_message)
            (end_game-IsConsistent s.manager j g c here (ground arith))
    ]
resign-IsConsistent net fd _ s c = c

given_up-IsConsistent :
    (ends : Bool) (id : Text) (m : MatchManager)
    → IsConsistent m
    → IsConsistent (if ends then (remove_game (some id) m).1 else m)
given_up-IsConsistent ends id m c = ground (arith, remove_game-IsConsistent (some id) m c)

either_way :
    (b : Bool) (x y : ℤ × Server)
    → IsConsistent x.1.manager
    → IsConsistent y.1.manager
    → IsConsistent (if b then x else y).1.manager
either_way true x y h k = h
either_way false x y h k = k

try_move-IsConsistent :
    (net : Net) (now : ℤ) (fd : ℤ) (j : ℕ) (g : ActiveGame) (seat : Seat) (req : MoveRequest)
    (s : Server)
    → IsConsistent s.manager
    → get_elem? s.manager.active_games j ≡ some g
    → g.is_active ≡ true
    → IsConsistent (try_move net now fd j g seat req s).1.manager
try_move-IsConsistent net now fd j g seat req s c here live =
    elim (try_move_outcome net now fd j g seat req s) [
      | inl (refused, (why, e)) ↦ rw e c
      | inr (a, applies) ↦
          let b = apply_move g.game_state a.sx a.sy a.dx a.dy in
          let g' = moved net now fd j g seat req s b in
          let c' : IsConsistent (holding net now fd j g seat req s b).manager =
            update-IsConsistent s.manager j g g' c here refl (λ _.
              after_move g.game_state a.sx a.sy a.dx a.dy (c.positions j g here live) a.legal) in
          elim applies [
            | inl (lost, e) ↦ rw e c'
            | inr (sent, e) ↦ rw e (
                given_up-IsConsistent (over b) g.game_id
                  (holding net now fd j g seat req s b).manager c')
          ]
    ]

move-IsConsistent :
    (net : Net) (now : ℤ) (fd : ℤ) (msg : ClientMessage) (s : Server)
    → IsConsistent s.manager
    → IsConsistent (handle_move_message net now fd msg s).1.manager
unfolding handle_move_message find_game_by_player_fd send_move_error reply
move-IsConsistent net now fd (move (some req)) s c =
    elim (Option-cases (find_slot (plays_on fd) s.manager.active_games)) [
      | inl absent ↦ rw (absent, handle_move_message) c
      | inr ((j, g), found) ↦
          let (here, plays) = find_slot-some (plays_on fd) s.manager.active_games found in
          elim (Option-cases (seat_of fd g)) [
            | inl nobody ↦ rw (found, nobody, handle_move_message) c
            | inr (seat, sits) ↦
                rw (found, sits, handle_move_message)
                  (try_move-IsConsistent net now fd j g seat req s c here (ground arith))
          ]
    ]
move-IsConsistent net now fd _ s c = c

dispatch-Keeps :
    (net : Net) (now : Readings) (fd : ℤ) (msg : ClientMessage) (s : Server)
    → IsConsistent s.manager
    → Keeps (dispatch_client_message net now fd msg s)
unfolding dispatch_client_message handle_ping_message handle_echo_message handle_unknown_message
    reply_checked send_error_response reply
dispatch-Keeps net now fd (ping t) s c = c
dispatch-Keeps net now fd (echo t) s c = c
dispatch-Keeps net now fd (chat t) s c = rw (chat-manager net fd (chat t) s) c
dispatch-Keeps net now fd (match_game p) s c = match_game-Keeps net now fd (match_game p) s c
dispatch-Keeps net now fd (cancel_match p) s c = cancel-IsConsistent net fd (cancel_match p) s c
dispatch-Keeps net now fd (resign p) s c = resign-IsConsistent net fd (resign p) s c
dispatch-Keeps net now fd (move p) s c = move-IsConsistent net now.move_ms fd (move p) s c
dispatch-Keeps net now fd unset s c = c

report-manager :
    (net : Net) (fd r : ℤ) (s : Server) → (report_failure net fd r s).manager ≡ s.manager
unfolding report_failure send_error_response reply
report-manager net fd r s = ground arith

-- Whatever a client sends, and when it goes away, the server's manager stays consistent.
pub handle_client_message-IsConsistent :
    (net : Net) (now : Readings) (fd : ℤ) (msg : Option ClientMessage) (s : Server) {s' : Server}
    → IsConsistent s.manager
    → handle_client_message net now fd msg s ≡ some s'
    → IsConsistent s'.manager
unfolding handle_client_message
handle_client_message-IsConsistent net now fd none s {s'} c h =
    let e : s'.manager ≡ (handle_player_disconnect fd s.manager s.out).manager = ground arith in
    rw e (handle_player_disconnect-IsConsistent fd s.manager s.out c)
handle_client_message-IsConsistent net now fd (some msg) s {s'} c h =
    elim (Option-cases (dispatch_client_message net now fd msg s)) [
      | inl fault ↦ let h' = rw (fault, handle_client_message) at h in absurd (cc)
      | inr ((r, s''), done) ↦
          let k = rw done at (dispatch-Keeps net now fd msg s c) in
          let e : some (report_failure net fd r s'') ≡ some s' =
            rw (done, handle_client_message) at h in
          let e' : report_failure net fd r s'' ≡ s' = ground arith in
          rw (← e', report-manager net fd r s'') k
    ]
