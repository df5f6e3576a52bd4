-- ===== src/Rule/Landing.antt =====
-- What `apply_move` of common/rule.c does to the board, for a move that `is_move_legal` lets pass:
-- which squares hold a king before and after.
use multiplay_chess.Prelude.{
  ◌≡◌, sym, ◌∙◌, ap, inl, inr, true, false, ◌&&◌, ◌||◌, Bool-cases, ◌==◌, ℤ, pos, abs, ◌+ℤ◌, ◌-ℤ◌,
  ◌==ℤ◌, ==ℤ→≡, arith,
}
use multiplay_chess.Piece.{pawn, king, Team, deref, kind_eq, other_team}
use multiplay_chess.Game.{Square, Board, Game, put, kill, holds, same_square}
use multiplay_chess.Rule.{
  stands_for, is_king_of, forward, pawn_ok, take_en_passant, shift_piece, castle_rook, promote,
  board_after, apply_piece, apply_move,
}
use multiplay_chess.Rule.Moves.{Passes}
use multiplay_chess.Rule.Moves.{stands_for-team}
use multiplay_chess.Rule.Pawns.{
  same→≡, put_self, put_other, holds_ref, not_both, dead_stands, EnPassantSafe, pawn_ok-cases, dir,
}
use multiplay_chess.Rule.Promotion.{
  same_swap, not_same, kind_eq→≡, king-IsBeside, kingless, piece_pawn, apply_move_held,
  promoted_square, promoted_stands,
}

module _ (g : Game) (sx sy dx dy : ℤ) (p : Passes g sx sy dx dy) where
  abbrev src : Square
  src = g.board sy sx

  src_team : src.team ≡ g.side_to_move
  src_team = stands_for-team g.side_to_move src p.own_piece

  distinct : same_square sy sx dy dx ≡ false
  distinct = not_same sy sx dy dx λ (ey, ex).
      let own : stands_for g.side_to_move (g.board dy dx) ≡ true = rw (ey, ex) p.own_piece in
      let other = p.not_own_target in cc

  is_pawn : kind_eq (deref p.moved).piece_type pawn ≡ true → pawn_ok g sx sy dx dy ≡ true
  is_pawn h = piece_pawn g sx sy dx dy (deref p.moved) (kind_eq→≡ _ pawn h) p.fits

  abbrev Fired : Type 0
  Fired =
      (kind_eq (deref p.moved).piece_type pawn
        && (dx ==ℤ g.en_passant_x)
        && (dy ==ℤ g.en_passant_y))
      ≡ true

  -- A pawn that lands on the en passant square comes diagonally, and takes the pawn beside its source.
  en_passant_victim :
      EnPassantSafe g
      → Fired
      → (same_square sy dx sy sx ≡ false)
        × (same_square sy dx dy dx ≡ false)
        × (stands_for (other_team g.side_to_move) (g.board sy dx) ≡ true)
        × (holds king (g.board sy dx) ≡ false)
  en_passant_victim safe fired =
      let ex : dx ≡ g.en_passant_x = ==ℤ→≡ dx g.en_passant_x (ground arith) in
      let ey : dy ≡ g.en_passant_y = ==ℤ→≡ dy g.en_passant_y (ground arith) in
      let (sv, kv) = safe (rw (← ex, ← ey) p.to_inside) in
      let d = ap forward src_team in
      let stands : stands_for (other_team g.side_to_move) (g.board (dy -ℤ dir g sx sy dx dy) dx)
          ≡ true =
        rw (d, ex, ey) sv in
      let not_king : holds king (g.board (dy -ℤ dir g sx sy dx dy) dx) ≡ false =
        rw (d, ex, ey) kv in
      elim (pawn_ok-cases g sx sy dx dy (is_pawn (ground arith))) [
        | inl (file, rank) ↦
            absurd (not_both g.side_to_move src p.own_piece (rw (rank, file) at stands))
        | inr (inl (file, rank, free)) ↦
            let up = rw (rank, file) at stands in
            let down =
              dead_stands (other_team g.side_to_move) (g.board (sy +ℤ dir g sx sy dx dy) sx) free in
            absurd (cc)
        | inr (inr (file, rank, moved)) ↦ (
          not_same sy dx sy sx (λ (a, b). file (sym b)),
          not_same sy dx dy dx (λ (a, b). moved a),
          rw rank at stands,
          rw rank at not_king,
        )
      ]

  abbrev taken : Board
  taken = take_en_passant sx sy dx dy g (deref p.moved)

  module _ (safe : EnPassantSafe g) where
    -- The source keeps its piece, and no king is taken en passant.
    taken-src : taken sy sx ≡ src
    unfolding take_en_passant kill
    taken-src =
        elim (Bool-cases (
          kind_eq (deref p.moved).piece_type pawn
          && (dx ==ℤ g.en_passant_x)
          && (dy ==ℤ g.en_passant_y))) [
            | inl fired ↦
                let v = en_passant_victim safe fired in
                rw fired (put_other g.board sy dx _ sy sx v.0)
            | inr quiet ↦ rw quiet
          ]

    taken-kings : (t : Team) (y x : ℤ) → is_king_of t (taken y x) ≡ is_king_of t (g.board y x)
    unfolding take_en_passant kill
    taken-kings t y x =
        elim (Bool-cases (
          kind_eq (deref p.moved).piece_type pawn
          && (dx ==ℤ g.en_passant_x)
          && (dy ==ℤ g.en_passant_y))) [
            | inr quiet ↦ rw quiet
            | inl fired ↦
                let v = en_passant_victim safe fired in
                elim (Bool-cases (same_square sy dx y x)) [
                  | inr off ↦ rw fired (rw (put_other g.board sy dx _ y x off))
                  | inl on ↦
                      let (ey, ex) = same→≡ sy dx y x on in
                      rw (ey, ex)
                        (rw fired
                          (rw (put_self g.board sy dx) (sym (kingless t (g.board sy dx) v.3))))
                ]
          ]

    abbrev shifted : Board
    shifted = shift_piece sx sy dx dy taken

    shifted-dst : shifted dy dx ≡ src
    unfolding shift_piece kill
    shifted-dst =
        put_other _ sy sx _ dy dx distinct ∙ (put_self taken dy dx (taken sy sx) ∙ taken-src)

    shifted-src : (t : Team) → is_king_of t (shifted sy sx) ≡ false
    unfolding shift_piece kill
    shifted-src t = rw (put_self (put taken dy dx (taken sy sx)) sy sx)

    shifted-other :
        (y x : ℤ)
        → same_square sy sx y x ≡ false
        → same_square dy dx y x ≡ false
        → shifted y x ≡ taken y x
    unfolding shift_piece kill
    shifted-other y x off_src off_dst =
        put_other _ sy sx _ y x off_src ∙ put_other taken dy dx (taken sy sx) y x off_dst

    -- A king goes one square, so no rook is moved.
    no_castling : castle_rook sx sy dx dy shifted ≡ shifted
    unfolding castle_rook
    no_castling = elim (Bool-cases (holds king src)) [
      | inr other ↦ rw (shifted-dst, other)
      | inl is_king ↦
          let k = sym (holds_ref king p.moved src p.held) ∙ is_king in
          let b = king-IsBeside g sx sy dx dy p.moved k p.fits in
          let one : (abs (dx -ℤ sx) == 2) ≡ false = ground arith in rw (shifted-dst, is_king, one)
    ]

    -- Until promotion, the piece that moved is on its new square as it was.
    pub landed : board_after sx sy dx dy g (deref p.moved) dy dx ≡ src
    unfolding board_after
    landed = ap (λ (b : Board). b dy dx) no_castling ∙ shifted-dst

    abbrev after : Board
    after = (apply_move g sx sy dx dy).board

    after-promote : after ≡ promote sx sy dx dy shifted
    unfolding apply_piece board_after
    after-promote =
        ap (λ (h : Game). h.board) (apply_move_held g sx sy dx dy p.moved p.held)
        ∙ ap (promote sx sy dx dy) no_castling

    promoted-king :
        (b : Board) (t : Team) → is_king_of t (promote sx sy dx dy b dy dx) ≡ is_king_of t (b dy dx)
    unfolding promote
    promoted-king b t =
        rw (put_self b dy dx) (promoted_square (b dy dx) ((dy ==ℤ pos 7) || (dy ==ℤ pos 0)) t)

    -- The piece that moved is a king on its new square exactly if it was one.
    pub king_dst : (t : Team) → is_king_of t (after dy dx) ≡ is_king_of t src
    king_dst t = rw after-promote (promoted-king shifted t ∙ rw shifted-dst)

    promoted-stands :
        (b : Board) (t : Team) → stands_for t (promote sx sy dx dy b dy dx) ≡ stands_for t (b dy dx)
    unfolding promote
    promoted-stands b t =
        rw (put_self b dy dx) (promoted_stands (b dy dx) ((dy ==ℤ pos 7) || (dy ==ℤ pos 0)) t)

    -- It stands there for the team it stood for.
    pub stands_dst : (t : Team) → stands_for t (after dy dx) ≡ stands_for t src
    stands_dst t = rw after-promote (promoted-stands shifted t ∙ rw shifted-dst)

    -- Nothing is left behind.
    pub king_src : (t : Team) → is_king_of t (after sy sx) ≡ false
    unfolding promote
    king_src t = rw after-promote (rw (put_other shifted dy dx _ sy sx apart) (shifted-src t))
      where
        apart : same_square dy dx sy sx ≡ false
        apart = same_swap dy dx sy sx ∙ distinct

    -- Every other square holds a king exactly if it did before.
    pub king_other :
        (t : Team) (y x : ℤ)
        → same_square sy sx y x ≡ false
        → same_square dy dx y x ≡ false
        → is_king_of t (after y x) ≡ is_king_of t (g.board y x)
    unfolding promote
    king_other t y x off_src off_dst = rw after-promote (
        rw (put_other shifted dy dx _ y x off_dst, shifted-other y x off_src off_dst)
          (taken-kings t y x))
