-- ===== src/Rule/Legal.antt =====
-- The legal moves: `is_move_legal` of common/rule.c.
use multiplay_chess.Prelude.{
  ℕ, zero, suc, ◌-◌, ◌==◌, Bool, true, false, not, ◌&&◌, ◌||◌, if◌then◌else◌, none, some, List, [],
  ◌∷◌, any, ℤ, pos, negsuc, abs, ◌+ℤ◌, ◌-ℤ◌, div_ℤ, mod_ℤ, ltb_ℤ, ◌==ℤ◌,
}
use multiplay_chess.Piece.{
  PieceType, pawn, knight, bishop, rook, queen, king, white, Offset, Piece, deref, team_eq,
  other_team, kind_eq,
}
use multiplay_chess.Game.{Square, Game, in_board}
use multiplay_chess.Rule.Check.{stands_for, forward, is_square_attacked, is_in_check}
use multiplay_chess.Rule.Apply.{apply_move}

-- `for (int x = start; x != stop; x += step) if (!test(x)) return false;` with fuel for each turn.
unfoldable pub all_between : ℕ → ℤ → ℤ → ℤ → (ℤ → Bool) → Bool
all_between zero x stop step test = true
all_between (suc fuel) x stop step test = elim (x ==ℤ stop) [
  | true ↦ true
  | false ↦ elim (test x) [ false ↦ false | true ↦ all_between fuel (x +ℤ step) stop step test ]
]

module _ (g : Game) (sx sy dx dy : ℤ) where
  abbrev src : Square
  src = g.board sy sx

  abbrev dst : Square
  dst = g.board dy dx

  abbrev rx : ℤ
  rx = dx -ℤ sx

  abbrev ry : ℤ
  ry = dy -ℤ sy

  unfoldable pub pawn_ok : Bool
  pawn_ok =
      let dir = forward src.team in
      (rx ==ℤ pos 0) && (ry ==ℤ dir) && dst.is_dead
      || (rx ==ℤ pos 0)
        && (ry ==ℤ dir +ℤ dir)
        && not src.has_moved
        && dst.is_dead
        && (g.board (sy +ℤ dir) sx).is_dead
      || (abs rx == 1)
        && (ry ==ℤ dir)
        && (not dst.is_dead && not (team_eq dst.team src.team)
            || dst.is_dead && (g.en_passant_x ==ℤ dx) && (g.en_passant_y ==ℤ dy))

  abbrev may_castle : Bool → Bool
  may_castle ks =
      if team_eq src.team white
      then (if ks then g.white_can_castle_kingside else g.white_can_castle_queenside)
      else (if ks then g.black_can_castle_kingside else g.black_can_castle_queenside)

  -- The loops turn once and three times where |rx| is 2, the only case in which they run.
  unfoldable pub castle_ok : Bool
  castle_ok =
      let ks = ltb_ℤ (pos 0) rx in
      let step = if ks then pos 1 else negsuc 0 in
      may_castle ks
      && all_between 8 (sx +ℤ step) dx step (λ x. (g.board sy x).is_dead)
      && all_between 8 sx (dx +ℤ step) step
          (λ x. not (is_square_attacked g x sy (other_team src.team)))

  -- The loop over the offsets of a knight or a king: the first that fits decides.
  unfoldable pub step_ok : PieceType → List Offset → Bool
  step_ok k [] = false
  step_ok k (o ∷ os) = elim ((o.x ==ℤ rx) && (o.y ==ℤ ry)) [
    | false ↦ step_ok k os
    | true ↦ elim (kind_eq k king && (abs rx == 2) && (ry ==ℤ pos 0)) [
      | true ↦ castle_ok
      | false ↦ true
    ]
  ]

  -- `dd`, the number of steps along the offset.
  abbrev pub distance : Offset → ℤ
  distance o = if o.x ==ℤ pos 0 then div_ℤ ry o.y else div_ℤ rx o.x

  abbrev pub align : Offset → Bool
  align o =
      if o.x ==ℤ pos 0
      then (rx ==ℤ pos 0) && ltb_ℤ (pos 0) (div_ℤ ry o.y)
      else if o.y ==ℤ pos 0
      then (ry ==ℤ pos 0) && ltb_ℤ (pos 0) (div_ℤ rx o.x)
      else (mod_ℤ rx o.x ==ℤ pos 0)
        && (mod_ℤ ry o.y ==ℤ pos 0)
        && (distance o ==ℤ div_ℤ ry o.y)
        && ltb_ℤ (pos 0) (distance o)

  -- `for (int s = 1; s < dd; s++)`, with `rounds` turns left; (x, y) is the square of turn s.
  unfoldable pub way_clear : ℕ → Offset → ℤ → ℤ → Bool
  way_clear zero o x y = true
  way_clear (suc rounds) o x y = elim (g.board y x).is_dead [
    | false ↦ false
    | true ↦ way_clear rounds o (x +ℤ o.x) (y +ℤ o.y)
  ]

  unfoldable pub slide_along : Offset → Bool
  slide_along o = align o && way_clear (abs (distance o) - 1) o (sx +ℤ o.x) (sy +ℤ o.y)

  unfoldable pub slide_ok : List Offset → Bool
  slide_ok = any slide_along

  unfoldable pub piece_ok : Piece → Bool
  piece_ok p = elim p.piece_type [
    | pawn ↦ pawn_ok
    | knight ↦ step_ok p.piece_type p.offsets
    | king ↦ step_ok p.piece_type p.offsets
    | bishop ↦ slide_ok p.offsets
    | rook ↦ slide_ok p.offsets
    | queen ↦ slide_ok p.offsets
  ]

  -- Whether the piece may go so, its own king's safety left aside.
  unfoldable pub reaches : Bool
  reaches =
      in_board sx sy
      && in_board dx dy
      && stands_for g.side_to_move src
      && not (stands_for g.side_to_move dst)
      && elim src.piece [ none ↦ false | some p ↦ piece_ok (deref p) ]

  unfoldable pub is_move_legal : Bool
  is_move_legal = elim reaches [
    | false ↦ false
    | true ↦ not (is_in_check (apply_move g sx sy dx dy) src.team)
  ]
