-- ===== src/Server/Verdict.antt =====
-- When a game has ended by its position (server/handlers/move.c).
use multiplay_chess.Prelude.{◌≡◌, refl, Bool, Bool-cases, inl, inr, ◌||◌}
use multiplay_chess.Game.{Game}
use multiplay_chess.Rule.{is_checkmate, is_stalemate, is_fifty_move_rule}
use multiplay_chess.Server.Turn.{verdict}

-- A game is over by checkmate, stalemate or the fifty-move rule.
abbrev pub over : Game → Bool
over g = is_checkmate g || (is_stalemate g || is_fifty_move_rule g)

-- The verdict ends exactly the games that are over.
pub verdict-over : (g : Game) → (verdict g).game_ends ≡ over g
unfolding verdict
verdict-over g = elim (Bool-cases (is_checkmate g)) [
  | inl mate ↦ rw (verdict, mate) refl
  | inr no_mate ↦ elim (Bool-cases (is_stalemate g)) [
    | inl stale ↦ rw (verdict, no_mate, stale) refl
    | inr no_stale ↦ elim (Bool-cases (is_fifty_move_rule g)) [
      | inl fifty ↦ rw (verdict, no_mate, no_stale, fifty) refl
      | inr goes_on ↦ rw (verdict, no_mate, no_stale, goes_on) refl
    ]
  ]
]
