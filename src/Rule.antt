-- ===== src/Rule.antt =====
-- The rules of chess as common/rule.c has them. The definitions are those of Check, Apply and Legal,
-- passed on here, and the ends of a game below; the laws are in the other modules.
mod Check
mod Apply
mod Legal
unfoldable pub use Check.*
unfoldable pub use Apply.*
unfoldable pub use Legal.*
pub mod Moves
pub mod Ending
pub mod Steps
pub mod Rays
pub mod Slides
pub mod Attack
pub mod Pawns
pub mod Promotion
pub mod Landing
pub mod Kings
pub mod Sound
pub mod Rights
mod Tests
use package.multiplay_chess.Prelude.{
  ℕ, zero, suc, ◌-◌, ◌==◌, ltb, Bool, true, false, not, ◌&&◌, ◌||◌, if◌then◌else◌, Option, none,
  some, List, [], ◌∷◌, any, ℤ, pos, negsuc, minus_one, abs, ◌+ℤ◌, ◌-ℤ◌, div_ℤ, mod_ℤ, leb_ℤ, ltb_ℤ,
  ◌==ℤ◌,
}
use package.multiplay_chess.Piece.{
  PieceType, pawn, knight, bishop, rook, queen, king, Team, white, black, Offset, Piece, PieceRef,
  deref, get_default_queen, team_eq, other_team, kind_eq,
}
use package.multiplay_chess.Game.{Square, Board, Game, put, kill, holds, is_null, in_board}

-- The two inner loops of `is_checkmate` and `is_stalemate`: a move of the piece on (sx, sy).
unfoldable pub has_move_from : Game → ℤ → ℤ → Bool
has_move_from g sx sy = elim (stands_for g.side_to_move (g.board sy sx)) [
  | false ↦ false
  | true ↦ any (λ dx. any (λ dy. is_move_legal g sx sy dx dy) eight) eight
]

-- All four loops: a legal move of the side to move.
unfoldable pub has_move : Game → Bool
has_move g = any (λ sx. any (λ sy. has_move_from g sx sy) eight) eight

unfoldable pub is_checkmate : Game → Bool
is_checkmate g = elim (is_in_check g g.side_to_move) [ false ↦ false | true ↦ not (has_move g) ]

unfoldable pub is_stalemate : Game → Bool
is_stalemate g = elim (is_in_check g g.side_to_move) [ true ↦ false | false ↦ not (has_move g) ]

unfoldable pub is_fifty_move_rule : Game → Bool
is_fifty_move_rule g = leb_ℤ (pos 100) g.halfmove_clock
