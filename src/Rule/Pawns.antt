-- ===== src/Rule/Pawns.antt =====
-- The ways of a pawn in `is_move_legal` of common/rule.c, and reading a board after a write.
use multiplay_chess.Prelude.{
  ◌≡◌, ◌≢◌, ap, ◌⊎◌, inl, inr, true, false, ◌==◌, some, ℤ, pos, abs, pos_part, neg_part, ◌+ℤ◌, ◌-ℤ◌,
  ◌==ℤ◌, ==ℤ→≡, ==ℤ_refl, +ℤ_parts, -ℤ_parts, eq_of_parts, arith,
}
use multiplay_chess.Piece.{PieceType, king, Team, PieceRef, deref, kind_eq, other_team}
use multiplay_chess.Game.{Square, Board, Game, put, holds, in_board, same_square}
use multiplay_chess.Rule.{stands_for, forward, pawn_ok}

pub same_refl : (y x : ℤ) → same_square y x y x ≡ true
same_refl y x = ground (arith, ==ℤ_refl y, ==ℤ_refl x)

pub same→≡ : (y x y' x' : ℤ) → same_square y x y' x' ≡ true → (y' ≡ y) × (x' ≡ x)
same→≡ y x y' x' h = (==ℤ→≡ y' y (ground arith), ==ℤ→≡ x' x (ground arith))

pub put_self : (b : Board) (y x : ℤ) (s : Square) → put b y x s y x ≡ s
unfolding put
put_self b y x s = rw (same_refl y x)

pub put_other :
    (b : Board) (y x : ℤ) (s : Square) (y' x' : ℤ)
    → same_square y x y' x' ≡ false
    → put b y x s y' x' ≡ b y' x'
unfolding put
put_other b y x s y' x' h = rw h

pub holds_ref :
    (k : PieceType) (r : PieceRef) (s : Square)
    → s.piece ≡ some r
    → holds k s ≡ kind_eq (deref r).piece_type k
unfolding holds
holds_ref k r s e = rw e

-- The pawn that may be taken en passant: where the game has an en passant square, the piece of the
-- side that has just moved stands before it, and is no king.
abbrev pub EnPassantSafe : Game → Type 0
EnPassantSafe g =
    let v = g.board (g.en_passant_y -ℤ forward g.side_to_move) g.en_passant_x in
    in_board g.en_passant_x g.en_passant_y ≡ true
    → (stands_for (other_team g.side_to_move) v ≡ true) × (holds king v ≡ false)

pub not_both :
    (t : Team) (s : Square) → stands_for t s ≡ true → stands_for (other_team t) s ≡ true → ⊥
not_both t s h k = ground arith

pub dead_stands : (t : Team) (s : Square) → s.is_dead ≡ true → stands_for t s ≡ false
dead_stands t s h = ground arith

module _ (g : Game) (sx sy dx dy : ℤ) where
  abbrev pub dir : ℤ
  dir = forward (g.board sy sx).team

  abbrev pub Straight : Type 0
  Straight = (dx ≡ sx) × (dy -ℤ dir ≡ sy)

  abbrev pub Double : Type 0
  Double = (dx ≡ sx) × (dy -ℤ dir ≡ sy +ℤ dir) × ((g.board (sy +ℤ dir) sx).is_dead ≡ true)

  abbrev pub Diagonal : Type 0
  Diagonal = (dx ≢ sx) × (dy -ℤ dir ≡ sy) × (dy ≢ sy)

  pawn_tests :
      pawn_ok g sx sy dx dy ≡ true
      → ((dx -ℤ sx ==ℤ pos 0) ≡ true) × ((dy -ℤ sy ==ℤ dir) ≡ true)
        ⊎ ((dx -ℤ sx ==ℤ pos 0) ≡ true)
          × ((dy -ℤ sy ==ℤ dir +ℤ dir) ≡ true)
          × ((g.board (sy +ℤ dir) sx).is_dead ≡ true)
        ⊎ ((abs (dx -ℤ sx) == 1) ≡ true) × ((dy -ℤ sy ==ℤ dir) ≡ true)
  unfolding pawn_ok
  pawn_tests h = ground arith

  same_file : (dx -ℤ sx ==ℤ pos 0) ≡ true → dx ≡ sx
  same_file h =
      let e = ==ℤ→≡ (dx -ℤ sx) (pos 0) h in eq_of_parts dx sx (ground (arith, -ℤ_parts dx sx))

  rank_back : (d : ℤ) → (dy -ℤ sy ==ℤ d) ≡ true → dy -ℤ d ≡ sy
  rank_back d h =
      let e = ==ℤ→≡ (dy -ℤ sy) d h in
      eq_of_parts (dy -ℤ d) sy (ground (arith, -ℤ_parts dy sy, -ℤ_parts dy d))

  rank_back_two : (d : ℤ) → (dy -ℤ sy ==ℤ d +ℤ d) ≡ true → dy -ℤ d ≡ sy +ℤ d
  rank_back_two d h =
      let e = ==ℤ→≡ (dy -ℤ sy) (d +ℤ d) h in
      eq_of_parts (dy -ℤ d) (sy +ℤ d)
        (ground (arith, -ℤ_parts dy sy, -ℤ_parts dy d, +ℤ_parts d d, +ℤ_parts sy d))

  pub pawn_ok-cases : pawn_ok g sx sy dx dy ≡ true → Straight ⊎ Double ⊎ Diagonal
  pawn_ok-cases h = elim (pawn_tests h) [
    | inl (f, r) ↦ inl (same_file f, rank_back dir r)
    | inr (inl (f, r, d)) ↦ inr (inl (same_file f, rank_back_two dir r, d))
    | inr (inr (f, r)) ↦ inr (
        inr (
          λ e. ground (arith, -ℤ_parts dx sx, ap pos_part e, ap neg_part e),
          rank_back dir r,
          λ e. ground (arith, -ℤ_parts dy sy, ap pos_part e, ap neg_part e, ==ℤ→≡ (dy -ℤ sy) dir r),
        ))
  ]
