-- ===== src/Match/Timeouts.antt =====
-- The laws of `check_game_timeouts` (server/match_manager.c).
use multiplay_chess.Prelude.{
  ℕ, suc, ◌+◌, ◌-◌, ◌≤◌, ◌<◌, ◌≡◌, refl, sym, ap, ◌∙◌, ◌⊎◌, inl, inr, true, false, if◌then◌else◌,
  leb, List, [], ◌∷◌, length, count, ℤ, pos, ◌-ℤ◌, to_int32_small, arith, Text, -ℤ_parts,
  eq_of_parts,
}
use multiplay_chess.Piece.{white, black}
use multiplay_chess.Protocol.{ProtoTeam, team_white, team_black}
use multiplay_chess.Network.{Outbox}
use multiplay_chess.Match.{ActiveGame, MatchManager, game_runs}
use multiplay_chess.Match.Positions.{Positions, Positions-cons}
use multiplay_chess.Match.Counts.{IsConsistent}
use multiplay_chess.Match.Clock.{
  Tick, running, timed_out, tick, charge, charge_white, charge_black, check_games,
  check_game_timeouts, send_timeout_game_end_broadcast,
}

-- A game that goes on is active exactly if it was; a game that runs out of time was active.
tick-active :
    (now : ℤ) (g : ActiveGame)
    → ((g' : ActiveGame) → tick now g ≡ running g' → g'.is_active ≡ g.is_active)
      × ((g' : ActiveGame) (p : _) (w : ProtoTeam)
          → tick now g ≡ timed_out g' p w
          → g.is_active ≡ true)
unfolding tick charge_white charge_black
tick-active now g = (λ g' h. ground arith, λ g' p w h. ground arith)

Tick-cases :
    (t : Tick)
    → ((g : ActiveGame) × (t ≡ running g))
      ⊎ ((g : ActiveGame) × (p : Text) × (w : ProtoTeam) × (t ≡ timed_out g p w))
Tick-cases (running g) = inl (g, refl)
Tick-cases (timed_out g p w) = inr (g, p, w, refl)

tick-game :
    (now : ℤ) (g : ActiveGame)
    → (g' : ActiveGame) → tick now g ≡ running g'
    → g'.game_state ≡ g.game_state
unfolding tick charge_white charge_black
tick-game now g g' h = ground arith

check_games-Positions :
    (now : ℤ) (gs : List ActiveGame) (n : ℤ) (out : Outbox)
    → Positions gs
    → Positions (check_games now gs n out).games
unfolding check_games
check_games-Positions now [] n out h = h
check_games-Positions now (g ∷ gs) n out h = elim (Tick-cases (tick now g)) [
  | inl (g', e) ↦
      let same = tick-game now g g' e in
      let active = (tick-active now g).0 g' e in
      rw (e, check_games)
        (Positions-cons g' (check_games now gs n out).games
          (λ live. rw same (h 0 g refl (sym active ∙ live)))
          (check_games-Positions now gs n out (λ k. h (suc k))))
  | inr (g', p, w, e) ↦
      let out' = send_timeout_game_end_broadcast g' p w out in
      rw (e, check_games)
        (Positions-cons (record g' { is_active = false })
          (check_games now gs (n -ℤ pos 1) out').games (λ live. absurd (cc))
          (check_games-Positions now gs (n -ℤ pos 1) out' (λ k. h (suc k))))
]

-- A pass takes from the counter exactly the games that run out of time.
check_games-count :
    (now : ℤ) (gs : List ActiveGame) (n : ℤ) (out : Outbox) (k : ℕ)
    → n ≡ pos (k + count game_runs gs)
    → (check_games now gs n out).count ≡ pos (k + count game_runs (check_games now gs n out).games)
unfolding check_games
check_games-count now [] n out k e = e
check_games-count now (g ∷ gs) n out k e = elim (Tick-cases (tick now g)) [
  | inl (g', h) ↦
      let same = (tick-active now g).0 g' h in
      let rest =
        check_games-count now gs n out (k + (if g.is_active then 1 else 0)) (ground arith) in
      rw (h, check_games) (ground arith)
  | inr (g', p, w, h) ↦
      let live = (tick-active now g).1 g' p w h in
      let out' = send_timeout_game_end_broadcast g' p w out in
      let less : n -ℤ pos 1 ≡ pos (k + count game_runs gs) =
        ground
          (arith, -ℤ_parts n (pos 1), eq_of_parts (n -ℤ pos 1) (pos (k + count game_runs gs))) in
      rw (h, check_games) (ground (arith, check_games-count now gs (n -ℤ pos 1) out' k less))
]

length-check_games :
    (now : ℤ) (gs : List ActiveGame) (n : ℤ) (out : Outbox)
    → length (check_games now gs n out).games ≡ length gs
unfolding check_games
length-check_games now [] n out = refl
length-check_games now (g ∷ gs) n out = elim (Tick-cases (tick now g)) [
  | inl (g', h) ↦ rw (h, check_games) (ap suc (length-check_games now gs n out))
  | inr (g', p, w, h) ↦
      rw (h, check_games)
        (ap suc
          (length-check_games now gs (n -ℤ pos 1) (send_timeout_game_end_broadcast g' p w out)))
]

-- A pass of the clocks keeps the manager consistent: the counter falls by the games it ends.
pub check_game_timeouts-IsConsistent :
    (now : ℤ) (m : MatchManager) (out : Outbox)
    → IsConsistent m
    → IsConsistent (check_game_timeouts now m out).0
unfolding check_game_timeouts
check_game_timeouts-IsConsistent now m out c = record {
  waiting_size = c.waiting_size;
  games_size = length-check_games now m.active_games m.active_game_count out ∙ c.games_size;
  waiting_exact = c.waiting_exact;
  games_exact = ground (
    arith,
    check_games-count now m.active_games m.active_game_count out 0 (ground (arith, c.games_exact)),
  );
  one_waits = c.one_waits;
  positions = check_games-Positions now m.active_games m.active_game_count out c.positions;
}

-- The clock of the side to move, and the game with that clock set at the time of a pass.
abbrev pub clock_of : ActiveGame → ℤ
clock_of g = elim g.game_state.side_to_move [
  | white ↦ g.white_time_remaining
  | black ↦ g.black_time_remaining
]

abbrev pub with_clock : ℤ → ℤ → ActiveGame → ActiveGame
with_clock left now g = elim g.game_state.side_to_move [
  | white ↦ record g { white_time_remaining = left; last_timer_check_ms = now }
  | black ↦ record g { black_time_remaining = left; last_timer_check_ms = now }
]

abbrev pub mover_id : ActiveGame → Text
mover_id g = elim g.game_state.side_to_move [
  | white ↦ g.white_player_id
  | black ↦ g.black_player_id
]

abbrev pub waiter_team : ActiveGame → ProtoTeam
waiter_team g = elim g.game_state.side_to_move [ white ↦ team_black | black ↦ team_white ]

charge_exact : (w e : ℕ) → w < 2147483648 → e < 2147483648 → charge (pos w) (pos e) ≡ pos w -ℤ pos e
charge_exact w e hw he =
    let d = to_int32_small (pos e) (omega arith) (omega arith) in
    let s =
      to_int32_small (pos w -ℤ pos e) (omega (arith, -ℤ_parts (pos w) (pos e)))
        (omega (arith, -ℤ_parts (pos w) (pos e))) in
    rw d s

-- For an active game, at least 100 ms after the last pass, with both numbers within 31 bits: the
-- side to move is charged the elapsed time exactly, and the other clock and all else stay; if that
-- uses up the clock, it is set to 0, the game runs out of time, and the other team wins.
pub tick_lem :
    (now : ℤ) (g : ActiveGame) (w e : ℕ)
    → g.is_active ≡ true
    → clock_of g ≡ pos w
    → w < 2147483648
    → now -ℤ g.last_timer_check_ms ≡ pos e
    → 100 ≤ e
    → e < 2147483648
    → tick now g ≡ (
        if leb w e
        then timed_out (with_clock (pos 0) now g) (mover_id g) (waiter_team g)
        else running (with_clock (pos (w - e)) now g))
unfolding tick charge_white charge_black
tick_lem now g w e live clock hw elapsed long he = ground (
  arith,
  charge_exact w e hw he,
  -ℤ_parts (pos w) (pos e),
  eq_of_parts (pos w -ℤ pos e) (pos (w - e)),
)
