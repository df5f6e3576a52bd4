-- ===== src/Rule/Moves.antt =====
-- What a move that `is_move_legal` of common/rule.c lets pass has to satisfy.
use multiplay_chess.Prelude.{
  ◌≡◌, refl, Bool, true, false, not, ◌&&◌, Option-cases, ℤ, pos, negsuc, ◌∈◌, inl, inr, arith, zero,
  suc, some, ◌<◌, ℕ,
}
use multiplay_chess.Piece.{Team, PieceRef, deref}
use multiplay_chess.Game.{Game, Square, in_board}
use multiplay_chess.Rule.{
  eight, stands_for, is_in_check, apply_move, reaches, piece_ok, is_move_legal,
}

pub stands_for-team : (t : Team) (s : Square) → stands_for t s ≡ true → s.team ≡ t
stands_for-team t s h = ground arith

eight_mem : (n : ℕ) → n < 8 → pos n ∈ eight
eight_mem zero h = inl refl
eight_mem (suc zero) h = inr (inl refl)
eight_mem (suc (suc zero)) h = inr (inr (inl refl))
eight_mem (suc (suc (suc zero))) h = inr (inr (inr (inl refl)))
eight_mem (suc (suc (suc (suc zero)))) h = inr (inr (inr (inr (inl refl))))
eight_mem (suc (suc (suc (suc (suc zero))))) h = inr (inr (inr (inr (inr (inl refl)))))
eight_mem (suc (suc (suc (suc (suc (suc zero)))))) h = inr (inr (inr (inr (inr (inr (inl refl))))))
eight_mem (suc (suc (suc (suc (suc (suc (suc zero))))))) h =
    inr (inr (inr (inr (inr (inr (inr (inl refl)))))))
eight_mem (suc (suc (suc (suc (suc (suc (suc (suc n)))))))) h = absurd (omega arith)

pub in_board→eight : (x y : ℤ) → in_board x y ≡ true → (x ∈ eight) × (y ∈ eight)
in_board→eight (pos m) (pos n) h = (eight_mem m (ground arith), eight_mem n (ground arith))
in_board→eight (pos m) (negsuc n) h = absurd (ground arith)
in_board→eight (negsuc m) y h = absurd (ground arith)

-- The facts that hold of every move with the given ends that passes the test.
pub record Passes (g : Game) (sx sy dx dy : ℤ) : Type 0 where
  pub from_inside : in_board sx sy ≡ true
  pub to_inside : in_board dx dy ≡ true
  pub own_piece : stands_for g.side_to_move (g.board sy sx) ≡ true
  pub not_own_target : stands_for g.side_to_move (g.board dy dx) ≡ false
  pub moved : PieceRef
  pub held : (g.board sy sx).piece ≡ some moved
  pub fits : piece_ok g sx sy dx dy (deref moved) ≡ true

split_tests :
    (a b c d e : Bool)
    → (a && b && c && not d && e) ≡ true
    → (a ≡ true) × (b ≡ true) × (c ≡ true) × (d ≡ false) × (e ≡ true)
split_tests a b c d e h = ground arith

pub reaches-Passes :
    (g : Game) (sx sy dx dy : ℤ) → reaches g sx sy dx dy ≡ true → Passes g sx sy dx dy
unfolding reaches
reaches-Passes g sx sy dx dy h =
    let (a, b, c, d, e) = split_tests (in_board sx sy) (in_board dx dy) _ _ _ h in
    elim (Option-cases (g.board sy sx).piece) [
      | inl null ↦ let e' = rw null at e in cc
      | inr (r, held) ↦ record {
        from_inside = a;
        to_inside = b;
        own_piece = c;
        not_own_target = d;
        moved = r;
        held = held;
        fits = rw held at e;
      }
    ]

module _ (g : Game) (sx sy dx dy : ℤ) where
  pub legal-reaches : is_move_legal g sx sy dx dy ≡ true → reaches g sx sy dx dy ≡ true
  unfolding is_move_legal
  legal-reaches h = ground arith

  legal_safe :
      is_move_legal g sx sy dx dy ≡ true
      → is_in_check (apply_move g sx sy dx dy) (g.board sy sx).team ≡ false
  unfolding is_move_legal
  legal_safe h = ground arith

  -- A legal move starts on a square of the board with a piece of the side to move, ends on a square
  -- of the board without one, fits the piece, and leaves the mover's king unattacked.
  pub legal-Passes :
      is_move_legal g sx sy dx dy ≡ true
      → Passes g sx sy dx dy × (is_in_check (apply_move g sx sy dx dy) g.side_to_move ≡ false)
  legal-Passes h =
      let p = reaches-Passes g sx sy dx dy (legal-reaches h) in
      let own = stands_for-team g.side_to_move (g.board sy sx) p.own_piece in
      (p, rw own at (legal_safe h))
