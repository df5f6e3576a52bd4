-- ===== src/Rule/Promotion.antt =====
-- Single squares under the promotion and the marking of `apply_move` in common/rule.c, and what its
-- choice of a piece's rules comes to.
use multiplay_chess.Prelude.{
  ◌≡◌, refl, sym, ◌∙◌, ap, inl, inr, Bool, true, false, ◌&&◌, Bool-cases, if◌then◌else◌, Option,
  none, some, ℤ, ◌-ℤ◌, arith,
}
use multiplay_chess.Piece.{
  PieceType, pawn, king, Team, white, black, PieceRef, ref, deref, Piece, get_default_queen,
  kind_eq,
}
use multiplay_chess.Piece.Offsets.{deref-piece_type}
use multiplay_chess.Game.{Square, Game, holds, same_square}
use multiplay_chess.Rule.{stands_for, is_king_of, pawn_ok, piece_ok, apply_piece, apply_move}
use multiplay_chess.Rule.Steps.{IsBeside, piece_ok-king}
use multiplay_chess.Rule.Pawns.{same→≡}

pub same_swap : (y x y' x' : ℤ) → same_square y x y' x' ≡ same_square y' x' y x
same_swap y x y' x' = ground arith

pub not_same : (y x y' x' : ℤ) → ((y' ≡ y) × (x' ≡ x) → ⊥) → same_square y x y' x' ≡ false
not_same y x y' x' h = elim (Bool-cases (same_square y x y' x')) [
  | inl t ↦ absurd (h (same→≡ y x y' x' t))
  | inr f ↦ f
]

pub kind_eq→≡ : (a b : PieceType) → kind_eq a b ≡ true → a ≡ b
kind_eq→≡ a b h = ground arith

pub king-IsBeside :
    (g : Game) (sx sy dx dy : ℤ) (r : PieceRef)
    → kind_eq (deref r).piece_type king ≡ true
    → piece_ok g sx sy dx dy (deref r) ≡ true
    → IsBeside (dx -ℤ sx) (dy -ℤ sy)
king-IsBeside g sx sy dx dy (ref t k) e h =
    let same : k ≡ king = sym (deref-piece_type t k) ∙ kind_eq→≡ _ king e in
    (piece_ok-king g sx sy dx dy t).0 (rw same at h)

pub kingless : (t : Team) (s : Square) → holds king s ≡ false → is_king_of t s ≡ false
kingless t s h = ground arith

pub piece_pawn :
    (g : Game) (sx sy dx dy : ℤ) (q : Piece)
    → q.piece_type ≡ pawn
    → piece_ok g sx sy dx dy q ≡ true
    → pawn_ok g sx sy dx dy ≡ true
unfolding piece_ok
piece_pawn g sx sy dx dy q e h = rw (e, piece_ok) at h

pub apply_move_held :
    (g : Game) (sx sy dx dy : ℤ) (r : PieceRef)
    → (g.board sy sx).piece ≡ some r
    → apply_move g sx sy dx dy ≡ apply_piece sx sy dx dy g (deref r)
unfolding apply_move
apply_move_held g sx sy dx dy r held =
    ap (λ (o : Option PieceRef). elim o [ none ↦ g | some p ↦ apply_piece sx sy dx dy g (deref p) ])
      held

pub pawn_kingless : (s : Square) → holds pawn s ≡ true → holds king s ≡ false
unfolding holds
pawn_kingless s h = ground arith

queen_kingless : (t : Team) → kind_eq (deref (get_default_queen t)).piece_type king ≡ false
unfolding get_default_queen deref
queen_kingless white = refl
queen_kingless black = refl

marked_king :
    (s : Square) (t : Team) → is_king_of t (record s { has_moved = true }) ≡ is_king_of t s
unfolding holds
marked_king s t = refl

queened_king :
    (s : Square) (t : Team)
    → is_king_of t (record s { piece = some (get_default_queen s.team); has_moved = true }) ≡ false
unfolding holds
queened_king s t =
    kingless t (record s { piece = some (get_default_queen s.team); has_moved = true })
      (queen_kingless s.team)

-- Promotion puts a queen where a pawn stood, so it makes and unmakes no king.
pub promoted_square :
    (s : Square) (last : Bool) (t : Team)
    → is_king_of t
        (record (if holds pawn s && last
          then record s { piece = some (get_default_queen s.team) }
          else s) { has_moved = true })
      ≡ is_king_of t s
promoted_square s last t = elim (Bool-cases (holds pawn s && last)) [
  | inr stays ↦ rw stays (marked_king s t)
  | inl pawn_up ↦
      rw pawn_up (queened_king s t ∙ sym (kingless t s (pawn_kingless s (ground arith))))
]

-- Whose piece stands there is not changed by promotion.
pub promoted_stands :
    (s : Square) (last : Bool) (t : Team)
    → stands_for t
        (record (if holds pawn s && last
          then record s { piece = some (get_default_queen s.team) }
          else s) { has_moved = true })
      ≡ stands_for t s
unfolding holds
promoted_stands s last t = ground arith
