-- ===== src/Rule/Apply.antt =====
-- Making a move: `apply_move` of common/rule.c.
use multiplay_chess.Prelude.{
  ◌==◌, Bool, true, false, not, ◌&&◌, ◌||◌, if◌then◌else◌, none, some, ℤ, pos, minus_one, abs, ◌+ℤ◌,
  ◌-ℤ◌, div_ℤ, ltb_ℤ, ◌==ℤ◌,
}
use multiplay_chess.Piece.{
  pawn, rook, king, white, Piece, deref, get_default_queen, team_eq, other_team, kind_eq,
}
use multiplay_chess.Game.{Square, Board, Game, put, kill, holds}

-- `apply_move`, a step for each paragraph of the C code. Each reads the board that the earlier
-- ones left, so that pointers to one square stay the same square.
module _ (sx sy dx dy : ℤ) where
  -- The pawn taken en passant stands beside the source.
  unfoldable pub take_en_passant : Game → Piece → Board
  take_en_passant g p =
      if kind_eq p.piece_type pawn && (dx ==ℤ g.en_passant_x) && (dy ==ℤ g.en_passant_y)
      then kill g.board sy dx
      else g.board

  -- `*dst = *src; src->is_dead = 1; src->piece = NULL;`
  unfoldable pub shift_piece : Board → Board
  shift_piece b = kill (put b dy dx (b sy sx)) sy sx

  unfoldable pub move_rook : Board → Board
  move_rook b =
      let ks = ltb_ℤ sx dx in
      let from_x = if ks then pos 7 else pos 0 in
      let to_x = if ks then dx -ℤ pos 1 else dx +ℤ pos 1 in
      kill (put b dy to_x (b dy from_x)) dy from_x

  unfoldable pub castle_rook : Board → Board
  castle_rook b = if holds king (b dy dx) && (abs (dx -ℤ sx) == 2) then move_rook b else b

  -- A king's move ends both rights of its team.
  unfoldable pub king_rights : Square → Game → Game
  king_rights dst g =
      if holds king dst
      then if team_eq dst.team white
        then record g { white_can_castle_kingside = false; white_can_castle_queenside = false }
        else record g { black_can_castle_kingside = false; black_can_castle_queenside = false }
      else g

  abbrev from_corner : ℤ → ℤ → Bool
  from_corner x y = (sx ==ℤ x) && (sy ==ℤ y)

  -- A rook's first move from its corner ends the right on that side.
  unfoldable pub rook_rights : Square → Game → Game
  rook_rights dst g =
      if holds rook dst && not dst.has_moved
      then if team_eq dst.team white
        then record g {
          white_can_castle_queenside =
              not (from_corner (pos 0) (pos 0)) && g.white_can_castle_queenside;
          white_can_castle_kingside =
              not (from_corner (pos 7) (pos 0)) && g.white_can_castle_kingside;
        }
        else record g {
          black_can_castle_queenside =
              not (from_corner (pos 0) (pos 7)) && g.black_can_castle_queenside;
          black_can_castle_kingside =
              not (from_corner (pos 7) (pos 7)) && g.black_can_castle_kingside;
        }
      else g

  unfoldable pub set_en_passant : Square → Game → Game
  set_en_passant dst g =
      if holds pawn dst && (abs (dy -ℤ sy) == 2)
      then record g { en_passant_x = dx; en_passant_y = div_ℤ (sy +ℤ dy) (pos 2) }
      else record g { en_passant_x = minus_one; en_passant_y = minus_one }

  -- A pawn on the first or the last rank becomes a queen; the piece is marked as moved.
  unfoldable pub promote : Board → Board
  promote b =
      let dst = b dy dx in
      let promoted =
        if holds pawn dst && ((dy ==ℤ pos 7) || (dy ==ℤ pos 0))
        then record dst { piece = some (get_default_queen dst.team) }
        else dst in
      put b dy dx (record promoted { has_moved = true })

  abbrev next_clock : Game → Piece → ℤ
  next_clock g p =
      if kind_eq p.piece_type pawn || not (g.board dy dx).is_dead
      then pos 0
      else g.halfmove_clock +ℤ pos 1

  unfoldable pub board_after : Game → Piece → Board
  board_after g p = castle_rook (shift_piece (take_en_passant g p))

  unfoldable pub apply_piece : Game → Piece → Game
  apply_piece g p =
      let b = board_after g p in
      let dst = b dy dx in
      let g' = set_en_passant dst (rook_rights dst (king_rights dst g)) in
      record g' {
        board = promote b;
        side_to_move = other_team g.side_to_move;
        halfmove_clock = next_clock g p;
      }

unfoldable pub apply_move : Game → ℤ → ℤ → ℤ → ℤ → Game
apply_move g sx sy dx dy = elim (g.board sy sx).piece [
  | none ↦ g
  | some p ↦ apply_piece sx sy dx dy g (deref p)
]
