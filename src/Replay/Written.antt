-- ===== src/Replay/Written.antt =====
-- What a broadcast move does to the position and the record (client/handlers/move.c).
use multiplay_chess.Prelude.{
  ◌≡◌, refl, ◌∙◌, not, ◌&&◌, Bool, true, false, if◌then◌else◌, if-Holds, if-True, Option, some, set,
  take, ◌++◌, ltb_ℤ, leb_ℤ, ◌==ℤ◌, ℤ, pos, pos_part, ◌+ℤ◌, Text, codes, arith,
}
use multiplay_chess.Game.{Game}
use multiplay_chess.Protocol.{MoveBroadcast}
use multiplay_chess.Client.{GameState, apply_move_from_server, sync_timer_from_server}
use multiplay_chess.ClientState.{ClientState, add_chat_message_safe}
use multiplay_chess.Pgn.{File, save_current_game}
use multiplay_chess.Handlers.{
  Around, Handled, with_game, cut, end_message, record_move, already_recorded, mark_check,
  sync_clocks, follow_move, finish_game, announcement, handle_move_broadcast,
}
use multiplay_chess.Handlers.Bounds.{add_chat_message-with_chat}
use multiplay_chess.Replay.Recorded.{IsRecorded, IsFresh, not_applied, has_place}

-- The same position and record.
abbrev pub Same : GameState → GameState → Type 0
Same t s = (t.game ≡ s.game) × (t.pgn_moves ≡ s.pgn_moves) × (t.pgn_move_count ≡ s.pgn_move_count)

-- The move applied where the client can apply it, and written into the next place; nothing else.
abbrev pub Outcome : MoveBroadcast → GameState → Bool → Game → GameState → Type 0
Outcome b s ok g t =
    (t.game ≡ (if ok then g else s.game))
    × (t.pgn_moves ≡ (
        if ok
        then set s.pgn_moves (pos_part s.pgn_move_count) (take 5 (b.from ++ b.to))
        else s.pgn_moves))
    × (t.pgn_move_count ≡ (if ok then s.pgn_move_count +ℤ pos 1 else s.pgn_move_count))

abbrev pub Written : MoveBroadcast → GameState → GameState → Type 0
Written b s t =
    let (ok, g) = apply_move_from_server s.game (some b.from) (some b.to) in Outcome b s ok g t

abbrev pub told : Around → MoveBroadcast → ClientState → ClientState
told a b c = add_chat_message_safe a.now (codes "Game") (announcement b) c

Same-Written : (b : MoveBroadcast) (s t u : GameState) → Same u t → Written b s t → Written b s u
Same-Written b s t u (g, m, n) (wg, wm, wn) = (g ∙ wg, m ∙ wm, n ∙ wn)

told-Same :
    (now : ℤ) (sender message : Text) (c : ClientState)
    → Same (add_chat_message_safe now sender message c).game_state c.game_state
unfolding add_chat_message_safe
told-Same now sender message c =
    let (ms, n, e) = add_chat_message-with_chat now sender message c.game_state in
    rw e (refl, refl, refl)

finished-Same :
    (a : Around) (b : MoveBroadcast) (c : ClientState)
    → Same (finish_game a b c).client.game_state c.game_state
unfolding finish_game save_current_game add_chat_message_safe
finished-Same a b c =
    let (ms, n, e) =
      add_chat_message-with_chat a.now (codes "Game") (cut (end_message b)) c.game_state in
    rw e (
      if-Holds (λ (r : Option File × GameState). Same r.1 c.game_state)
        (c.game_state.pgn_move_count ==ℤ pos 0) (refl, refl, refl)
        (if-Holds (λ (r : Option File × GameState). Same r.1 c.game_state) a.disk.folder_ready
          (refl, refl, refl) (refl, refl, refl)))

mark_check-Same : (b : MoveBroadcast) (s : GameState) → Same (mark_check b s) s
mark_check-Same b s = (ground arith, ground arith, ground arith)

sync_clocks-Same : (a : Around) (b : MoveBroadcast) (s : GameState) → Same (sync_clocks a b s) s
unfolding sync_timer_from_server
sync_clocks-Same a b s =
    if-Holds (λ (t : GameState). Same t s)
      (leb_ℤ (pos 0) b.white_time_remaining && leb_ℤ (pos 0) b.black_time_remaining)
      (refl, refl, refl) (refl, refl, refl)

from-Written : (b : MoveBroadcast) (s s' t : GameState) → Same s' s → Written b s' t → Written b s t
from-Written b s s' t (g, m, n) w = rw (← g, ← m, ← n) w

-- The move is applied and written down.
abbrev Done : MoveBroadcast → GameState → Game → GameState → Type 0
Done b s g t =
    (t.game ≡ g)
    × (t.pgn_moves ≡ set s.pgn_moves (pos_part s.pgn_move_count) (take 5 (b.from ++ b.to)))
    × (t.pgn_move_count ≡ s.pgn_move_count +ℤ pos 1)

either :
    (b : MoveBroadcast) (s : GameState) (ok : Bool) (g : Game) (d d' : ClientState)
    → (ok ≡ true → Done b s g d.game_state)
    → (ok ≡ false → Same d'.game_state s)
    → Outcome b s ok g (if ok then d else d').game_state
either b s true g d d' h k = h refl
either b s false g d d' h k = k refl

recorded-Done :
    (a : Around) (b : MoveBroadcast) (s : GameState) (g : Game)
    → IsRecorded s
    → IsFresh (take 5 (b.from ++ b.to)) s
    → Done b s g (sync_clocks a b (mark_check b (record_move b.from b.to (record s { game = g }))))
unfolding record_move
recorded-Done a b s g r f =
    let recorded = record_move b.from b.to (record s { game = g }) in
    let (dg, dm, dn) : Done b s g recorded =
      if-True (Done b s g) _ _
        (ltb_ℤ s.pgn_move_count (pos 512) && not (already_recorded s (take 5 (b.from ++ b.to))))
        (has_place s (take 5 (b.from ++ b.to)) r f) (refl, refl, refl) in
    let (cg, cm, cn) = mark_check-Same b recorded in
    let (yg, ym, yn) = sync_clocks-Same a b (mark_check b recorded) in
    (yg ∙ (cg ∙ dg), ym ∙ (cm ∙ dm), yn ∙ (cn ∙ dn))

follow-Written :
    (a : Around) (b : MoveBroadcast) (c : ClientState)
    → IsRecorded c.game_state
    → IsFresh (take 5 (b.from ++ b.to)) c.game_state
    → Written b c.game_state (follow_move a b c).game_state
unfolding follow_move
follow-Written a b c r f =
    let s = c.game_state in
    let A = apply_move_from_server s.game (some b.from) (some b.to) in
    let failed = codes "Failed to update board state - invalid move coordinates" in
    let unmoved = with_game (record s { game = A.1 }) c in
    either b s A.0 A.1 _ _ (λ ok. recorded-Done a b s A.1 r f)
      (λ refused.
        let (tg, tm, tn) = told-Same a.now (codes "System") failed unmoved in
        (tg ∙ not_applied s.game b.from b.to refused, tm, tn))

-- A broadcast move, with what is said of it and the end of the game.
pub broadcast-Written :
    (a : Around) (b : MoveBroadcast) (c : ClientState)
    → IsRecorded (told a b c).game_state
    → IsFresh (take 5 (b.from ++ b.to)) (told a b c).game_state
    → Written b c.game_state (handle_move_broadcast a b c).client.game_state
unfolding handle_move_broadcast
broadcast-Written a b c r f =
    let s = c.game_state in
    let after = follow_move a b (told a b c) in
    let followed : Written b s after.game_state =
      from-Written b s (told a b c).game_state after.game_state
        (told-Same a.now (codes "Game") (announcement b) c) (follow-Written a b (told a b c) r f) in
    if-Holds (λ (h : Handled). Written b s h.client.game_state) b.game_ends
      (Same-Written b s after.game_state (finish_game a b after).client.game_state
        (finished-Same a b after) followed)
      followed
