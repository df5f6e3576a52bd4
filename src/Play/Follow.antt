-- ===== src/Play/Follow.antt =====
-- The position that a broadcast move leaves on a client (client/handlers/move.c).
use multiplay_chess.Prelude.{
  ◌≡◌, refl, ap, ◌∙◌, not, ◌&&◌, true, Option, if-Holds, if-True, some, take, ◌++◌, ltb_ℤ, leb_ℤ,
  ◌==ℤ◌, pos, Text, codes, arith,
}
use multiplay_chess.Game.{Game}
use multiplay_chess.Protocol.{MoveBroadcast}
use multiplay_chess.Client.{GameState, apply_move_from_server, sync_timer_from_server}
use multiplay_chess.ClientState.{ClientState, add_chat_message_safe}
use multiplay_chess.Pgn.{Disk, File, save_current_game}
use multiplay_chess.Handlers.Bounds.{told-game}
use multiplay_chess.Handlers.{
  Around, Handled, record_move, already_recorded, mark_check, sync_clocks, follow_move, finish_game,
  announcement, handle_move_broadcast,
}

saved-game : (disk : Disk) (s : GameState) → (save_current_game disk s).1.game ≡ s.game
unfolding save_current_game
saved-game disk s =
    let Same = λ (r : Option File × GameState). r.1.game ≡ s.game in
    if-Holds Same (s.pgn_move_count ==ℤ pos 0) refl (if-Holds Same disk.folder_ready refl refl)

record_move-game : (from to : Text) (s : GameState) → (record_move from to s).game ≡ s.game
unfolding record_move
record_move-game from to s =
    if-Holds (λ (t : GameState). t.game ≡ s.game)
      (ltb_ℤ s.pgn_move_count (pos 512) && not (already_recorded s (take 5 (from ++ to)))) refl refl

mark_check-game : (b : MoveBroadcast) (s : GameState) → (mark_check b s).game ≡ s.game
mark_check-game b s = ground arith

sync_clocks-game :
    (a : Around) (b : MoveBroadcast) (s : GameState) → (sync_clocks a b s).game ≡ s.game
unfolding sync_timer_from_server
sync_clocks-game a b s =
    if-Holds (λ (t : GameState). t.game ≡ s.game)
      (leb_ℤ (pos 0) b.white_time_remaining && leb_ℤ (pos 0) b.black_time_remaining) refl refl

finished-game :
    (a : Around) (b : MoveBroadcast) (c : ClientState)
    → (finish_game a b c).client.game_state.game ≡ c.game_state.game
unfolding finish_game
finished-game a b c = saved-game a.disk _ ∙ told-game a.now _ _ c

followed-game :
    (a : Around) (b : MoveBroadcast) (c : ClientState) (g : Game)
    → apply_move_from_server c.game_state.game (some b.from) (some b.to) ≡ (true, g)
    → (follow_move a b c).game_state.game ≡ g
unfolding follow_move
followed-game a b c g made =
    if-True (λ (d : ClientState). d.game_state.game ≡ g) _ _ _ (ap (λ r. r.0) made)
      (sync_clocks-game a b _
        ∙ (mark_check-game b _ ∙ (record_move-game b.from b.to _ ∙ ap (λ r. r.1) made)))

-- A move that the client can apply, whatever else the broadcast says, is applied to its position.
pub broadcast-game :
    (a : Around) (b : MoveBroadcast) (c : ClientState) (g : Game)
    → apply_move_from_server c.game_state.game (some b.from) (some b.to) ≡ (true, g)
    → (handle_move_broadcast a b c).client.game_state.game ≡ g
unfolding handle_move_broadcast
broadcast-game a b c g applied =
    let told = add_chat_message_safe a.now (codes "Game") (announcement b) c in
    let made : apply_move_from_server told.game_state.game (some b.from) (some b.to) ≡ (true, g) =
      ap (λ p. apply_move_from_server p (some b.from) (some b.to)) (told-game a.now _ _ c)
      ∙ applied in
    let followed = followed-game a b told g made in
    if-Holds (λ (h : Handled). h.client.game_state.game ≡ g) b.game_ends
      (finished-game a b _ ∙ followed) followed
