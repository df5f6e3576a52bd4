-- ===== src/Client/Display.antt =====
-- The clocks that the client displays (client/game_state.c, `update_game_timer`).
use multiplay_chess.Prelude.{
  ℕ, ◌-◌, ◌≤◌, ◌<◌, ◌≡◌, ◌≢◌, true, ℤ, pos, ◌-ℤ◌, to_int32_small, -ℤ_parts, eq_of_parts, arith,
}
use multiplay_chess.Piece.{white, black}
use multiplay_chess.Client.{GameState, run_down, charge_player, update_game_timer}

-- The clock of the side to move, and the display with that clock set.
abbrev pub shown_clock : GameState → ℤ
shown_clock s = elim s.game.side_to_move [
  | white ↦ s.white_time_remaining
  | black ↦ s.black_time_remaining
]

abbrev pub with_shown : ℤ → ℤ → GameState → GameState
with_shown left now s = elim s.game.side_to_move [
  | white ↦ record s { white_time_remaining = left; last_timer_update = now }
  | black ↦ record s { black_time_remaining = left; last_timer_update = now }
]

run_down_exact :
    (w e : ℕ) → w < 2147483648 → e < 2147483648 → run_down (pos w) (pos e) ≡ pos (w - e)
run_down_exact w e hw he =
    let d = to_int32_small (pos e) (omega arith) (omega arith) in
    let s =
      to_int32_small (pos w -ℤ pos e) (omega (arith, -ℤ_parts (pos w) (pos e)))
        (omega (arith, -ℤ_parts (pos w) (pos e))) in
    rw (d, s) (ground (arith, -ℤ_parts (pos w) (pos e), eq_of_parts (pos w -ℤ pos e) (pos (w - e))))

-- In a running game whose display has been updated before, after at least a second, with both
-- numbers within 31 bits: the clock of the side to move falls by the seconds since the last update
-- and stops at zero, the update's time is recorded, and nothing else changes.
pub update_game_timer_lem :
    (now : ℤ) (s : GameState) (w e : ℕ)
    → s.game_in_progress ≡ true
    → s.last_timer_update ≢ pos 0
    → shown_clock s ≡ pos w
    → w < 2147483648
    → now -ℤ s.last_timer_update ≡ pos e
    → 1 ≤ e
    → e < 2147483648
    → update_game_timer now s ≡ with_shown (pos (w - e)) now s
unfolding update_game_timer charge_player
update_game_timer_lem now s w e running updated clock hw elapsed long he =
    ground (arith, run_down_exact w e hw he)
