-- ===== src/Rule/Rights.antt =====
-- The castling rights over `apply_move` of common/rule.c.
use multiplay_chess.Prelude.{
  ◌≡◌, ap, Bool, true, false, Bool-cases, inl, inr, Option, Option-cases, none, some, ℤ, arith,
}
use multiplay_chess.Piece.{PieceRef, deref, Piece, king, Team, white, black}
use multiplay_chess.Game.{Square, Game, holds}
use multiplay_chess.Rule.{
  king_rights, rook_rights, set_en_passant, apply_piece, apply_move, board_after, is_move_legal,
}
use multiplay_chess.Rule.Moves.{legal-Passes, stands_for-team}
use multiplay_chess.Rule.Landing.{landed}
use multiplay_chess.Rule.Sound.{IsSound}
use multiplay_chess.Rule.Promotion.{apply_move_held}

-- Every right that h has, g has.
pub record NoMoreRights (h g : Game) : Type 0 where
  pub white_kingside : h.white_can_castle_kingside ≡ true → g.white_can_castle_kingside ≡ true
  pub white_queenside : h.white_can_castle_queenside ≡ true → g.white_can_castle_queenside ≡ true
  pub black_kingside : h.black_can_castle_kingside ≡ true → g.black_can_castle_kingside ≡ true
  pub black_queenside : h.black_can_castle_queenside ≡ true → g.black_can_castle_queenside ≡ true

module _ (sx sy dx dy : ℤ) (dst : Square) (g : Game) where
  king_rights-NoMoreRights : NoMoreRights (king_rights sx sy dx dy dst g) g
  unfolding king_rights
  king_rights-NoMoreRights = record {
    white_kingside = λ h. ground arith;
    white_queenside = λ h. ground arith;
    black_kingside = λ h. ground arith;
    black_queenside = λ h. ground arith;
  }

  rook_rights-NoMoreRights : NoMoreRights (rook_rights sx sy dx dy dst g) g
  unfolding rook_rights
  rook_rights-NoMoreRights = record {
    white_kingside = λ h. ground arith;
    white_queenside = λ h. ground arith;
    black_kingside = λ h. ground arith;
    black_queenside = λ h. ground arith;
  }

  set_en_passant-NoMoreRights : NoMoreRights (set_en_passant sx sy dx dy dst g) g
  unfolding set_en_passant
  set_en_passant-NoMoreRights = record {
    white_kingside = λ h. ground arith;
    white_queenside = λ h. ground arith;
    black_kingside = λ h. ground arith;
    black_queenside = λ h. ground arith;
  }

trans : (h k g : Game) → NoMoreRights h k → NoMoreRights k g → NoMoreRights h g
trans h k g a b = record {
  white_kingside = λ e. b.white_kingside (a.white_kingside e);
  white_queenside = λ e. b.white_queenside (a.white_queenside e);
  black_kingside = λ e. b.black_kingside (a.black_kingside e);
  black_queenside = λ e. b.black_queenside (a.black_queenside e);
}

apply_piece-NoMoreRights :
    (sx sy dx dy : ℤ) (g : Game) (p : Piece) → NoMoreRights (apply_piece sx sy dx dy g p) g
unfolding apply_piece
apply_piece-NoMoreRights sx sy dx dy g p =
    let dst = board_after sx sy dx dy g p dy dx in
    let k = king_rights sx sy dx dy dst g in
    let r = rook_rights sx sy dx dy dst k in
    let e = set_en_passant sx sy dx dy dst r in
    let t = trans e r g (set_en_passant-NoMoreRights sx sy dx dy dst r) (
      trans r k g (rook_rights-NoMoreRights sx sy dx dy dst k)
        (king_rights-NoMoreRights sx sy dx dy dst g)) in
    record {
      white_kingside = t.white_kingside;
      white_queenside = t.white_queenside;
      black_kingside = t.black_kingside;
      black_queenside = t.black_queenside;
    }

same_rights : (g : Game) → NoMoreRights g g
same_rights g = record {
  white_kingside = λ e. e;
  white_queenside = λ e. e;
  black_kingside = λ e. e;
  black_queenside = λ e. e;
}

nothing_moved :
    (g : Game) (sx sy dx dy : ℤ) → (g.board sy sx).piece ≡ none → apply_move g sx sy dx dy ≡ g
unfolding apply_move
nothing_moved g sx sy dx dy empty =
    ap (λ (o : Option PieceRef). elim o [ none ↦ g | some p ↦ apply_piece sx sy dx dy g (deref p) ])
      empty

-- No move, legal or not, gives a castling right: each right that the game has afterwards it had before.
pub apply_move-NoMoreRights :
    (g : Game) (sx sy dx dy : ℤ) → NoMoreRights (apply_move g sx sy dx dy) g
apply_move-NoMoreRights g sx sy dx dy = elim (Option-cases (g.board sy sx).piece) [
  | inr (r, held) ↦
      rw (apply_move_held g sx sy dx dy r held) (apply_piece-NoMoreRights sx sy dx dy g (deref r))
  | inl empty ↦ rw (nothing_moved g sx sy dx dy empty) (same_rights g)
]

abbrev pub kingside : Team → Game → Bool
kingside white g = g.white_can_castle_kingside
kingside black g = g.black_can_castle_kingside

abbrev pub queenside : Team → Game → Bool
queenside white g = g.white_can_castle_queenside
queenside black g = g.black_can_castle_queenside

-- A team with neither right.
abbrev pub NoRights : Team → Game → Type 0
NoRights t g = (kingside t g ≡ false) × (queenside t g ≡ false)

fall : {a b : Bool} → (a ≡ true → b ≡ true) → b ≡ false → a ≡ false
fall {a} {b} f e = elim (Bool-cases a) [ inl on ↦ let hit = f on in absurd (cc) | inr off ↦ off ]

NoRights-lower : (t : Team) (h g : Game) → NoMoreRights h g → NoRights t g → NoRights t h
NoRights-lower white h g m (k, q) = (fall m.white_kingside k, fall m.white_queenside q)
NoRights-lower black h g m (k, q) = (fall m.black_kingside k, fall m.black_queenside q)

king_rights-NoRights :
    (sx sy dx dy : ℤ) (dst : Square) (g : Game) (t : Team)
    → dst.team ≡ t
    → holds king dst ≡ true
    → NoRights t (king_rights sx sy dx dy dst g)
unfolding king_rights
king_rights-NoRights sx sy dx dy dst g t e h = ground arith

apply_piece-NoRights :
    (sx sy dx dy : ℤ) (g : Game) (p : Piece) (t : Team) (dst : Square)
    → board_after sx sy dx dy g p dy dx ≡ dst
    → NoRights t (
        set_en_passant sx sy dx dy dst
          (rook_rights sx sy dx dy dst (king_rights sx sy dx dy dst g)))
    → NoRights t (apply_piece sx sy dx dy g p)
unfolding apply_piece
apply_piece-NoRights sx sy dx dy g p white dst e h = rw e h
apply_piece-NoRights sx sy dx dy g p black dst e h = rw e h

-- A legal move of a king, from a sound position, leaves its team without castling rights.
pub king_move-NoRights :
    (g : Game) (sx sy dx dy : ℤ)
    → IsSound g
    → is_move_legal g sx sy dx dy ≡ true
    → holds king (g.board sy sx) ≡ true
    → NoRights g.side_to_move (apply_move g sx sy dx dy)
king_move-NoRights g sx sy dx dy s legal on =
    let p = (legal-Passes g sx sy dx dy legal).0 in
    let src = g.board sy sx in
    let team = stands_for-team g.side_to_move src p.own_piece in
    let k = king_rights sx sy dx dy src g in
    let r = rook_rights sx sy dx dy src k in
    let e = set_en_passant sx sy dx dy src r in
    let lower =
      trans e r k (set_en_passant-NoMoreRights sx sy dx dy src r)
        (rook_rights-NoMoreRights sx sy dx dy src k) in
    let none_left =
      NoRights-lower g.side_to_move e k lower
        (king_rights-NoRights sx sy dx dy src g g.side_to_move team on) in
    rw (apply_move_held g sx sy dx dy p.moved p.held) (
      apply_piece-NoRights sx sy dx dy g (deref p.moved) g.side_to_move src
        (landed g sx sy dx dy p s.victim) none_left)
