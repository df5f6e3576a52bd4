-- ===== src/Match/Positions.antt =====
-- The positions of the running games in the table of server/match_manager.c.
use multiplay_chess.Prelude.{
  ℕ, zero, suc, ◌≡◌, inl, inr, true, some, List, ◌∷◌, get_elem?, set, replicate, get_elem?-set,
  arith,
}
use multiplay_chess.Fen.Reach.{Reached}
use multiplay_chess.Match.{ActiveGame, no_game}

-- Each running game stands at a position that legal moves lead to from the starting position.
abbrev pub Positions : List ActiveGame → Type 0
Positions gs =
    (k : ℕ) (g : ActiveGame) → get_elem? gs k ≡ some g → g.is_active ≡ true → Reached g.game_state

pub Positions-set :
    (gs : List ActiveGame) (j : ℕ) (g' : ActiveGame)
    → Positions gs
    → (g'.is_active ≡ true → Reached g'.game_state)
    → Positions (set gs j g')
Positions-set gs j g' h new k g here live = elim (get_elem?-set gs j g' k here) [
  | inl e ↦ rw e (new (rw e at live))
  | inr old ↦ h k g old live
]

pub Positions-cons :
    (g : ActiveGame) (gs : List ActiveGame)
    → (g.is_active ≡ true → Reached g.game_state)
    → Positions gs
    → Positions (g ∷ gs)
Positions-cons g gs new h zero a here live =
    let e : a ≡ g = ground arith in rw e (new (rw e at live))
Positions-cons g gs new h (suc k) a here live = h k a here live

pub Positions-none : (n : ℕ) → Positions (replicate n no_game)
Positions-none zero k g here live = absurd (ground arith)
Positions-none (suc n) zero g here live = absurd (ground arith)
Positions-none (suc n) (suc k) g here live = Positions-none n k g here live
