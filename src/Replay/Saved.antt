-- ===== src/Replay/Saved.antt =====
-- A saved game that is loaded and replayed (client/pgn_save.c, client/replay.c).
use multiplay_chess.Prelude.{
  ℕ, zero, suc, ◌-◌, ◌≤◌, ◌≡◌, ◌≢◌, refl, sym, ap, ◌∙◌, some, List, [], ◌∷◌, length, take, pos,
  ◌-ℤ◌, -ℤ_parts, eq_of_parts, Text, arith,
}
use multiplay_chess.Game.{Game}
use multiplay_chess.Client.{GameState}
use multiplay_chess.Pgn.{pgn_text}
use multiplay_chess.Replay.{
  load_moves, ReplayState, move_count, turns_to, play_move, play_moves, replay_to_move,
}
use multiplay_chess.Replay.Lines.{IsHeader}
use multiplay_chess.Replay.Roundtrip.{length-take, load_moves-pgn_text}
use multiplay_chess.Replay.Recorded.{Unwritten, reset-start, start, play_all, IsRecorded}

play_moves-play_all :
    (n : ℕ) (ms : List Text) (g : Game) → n ≡ length ms → play_moves n ms g ≡ play_all ms g
unfolding play_moves
play_moves-play_all zero [] g h = refl
play_moves-play_all zero (m ∷ ms) g h = absurd (omega arith)
play_moves-play_all (suc n) [] g h = absurd (omega arith)
play_moves-play_all (suc n) (m ∷ ms) g h = play_moves-play_all n ms (play_move g m) (omega arith)

last_turn : (n : ℕ) → 1 ≤ n → turns_to (pos n -ℤ pos 1) ≡ n
last_turn n h =
    let e : pos n -ℤ pos 1 ≡ pos (n - 1) =
      eq_of_parts (pos n -ℤ pos 1) (pos (n - 1)) (omega (arith, -ℤ_parts (pos n) (pos 1))) in
    ap turns_to e ∙ omega arith

-- A game in step with its record, of at least one move and with no newline in its texts, is saved
-- and loaded: replaying the file up to its last move gives the position that the client showed,
-- whatever position was shown before, where the fields that nothing writes are as init_game left them.
pub saved_game_replayed :
    (date : Text) (s : GameState) (r : ReplayState) (g : Game)
    → IsRecorded s
    → IsHeader date s
    → s.pgn_move_count ≢ pos 0
    → r.moves ≡ load_moves (some (pgn_text date s))
    → Unwritten g
    → replay_to_move r (move_count r -ℤ pos 1) g ≡ s.game
unfolding replay_to_move
saved_game_replayed date s r g k h some_moves loaded first =
    let ms = take k.number s.pgn_moves in
    let read : r.moves ≡ ms =
      loaded
      ∙ load_moves-pgn_text date s k.number h k.counted (omega (arith, k.size, k.within)) k.within
          k.tokens in
    let n : length ms ≡ k.number =
      length-take s.pgn_moves k.number (omega (arith, k.size, k.within)) in
    let positive : 1 ≤ length ms =
      omega (arith, n, not_zero k.number (λ e. some_moves (k.counted ∙ ap pos e))) in
    ap (play_moves (turns_to (move_count r -ℤ pos 1)) r.moves) (reset-start g first)
    ∙ (ap (λ l. play_moves (turns_to (pos (length l) -ℤ pos 1)) l start) read
        ∙ (play_moves-play_all _ ms start (last_turn (length ms) positive) ∙ sym k.in_step))
  where
    not_zero : (n : ℕ) → n ≢ 0 → 1 ≤ n
    not_zero n h = omega arith
