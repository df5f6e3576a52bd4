-- ===== src/Game.antt =====
-- The game state (common/piece.h, common/rule.h). `board[y][x]` is a function of y and x in this
-- order; the code reads and writes it on the board only.
use multiplay_chess.Prelude.{
  Bool, true, false, ◌&&◌, Option, none, some, ℤ, pos, ◌==ℤ◌, leb_ℤ, ltb_ℤ, if◌then◌else◌,
}
use multiplay_chess.Piece.{PieceType, PieceRef, Team, deref, kind_eq}

-- `piece` is `none` for a null pointer.
pub record Square : Type 0 where
  pub piece : Option PieceRef
  pub team : Team
  pub is_dead : Bool
  pub has_moved : Bool

abbrev pub Board : Type 0
Board = ℤ → ℤ → Square

pub record Game : Type 0 where
  pub board : Board
  pub side_to_move : Team
  pub halfmove_clock : ℤ
  pub white_can_castle_kingside : Bool
  pub white_can_castle_queenside : Bool
  pub black_can_castle_kingside : Bool
  pub black_can_castle_queenside : Bool
  pub en_passant_x : ℤ
  pub en_passant_y : ℤ
  pub is_check : Bool
  pub is_checkmate : Bool
  pub is_stalemate : Bool
  pub fullmove_number : ℤ

-- Whether (x, y) and (x', y') are one square.
abbrev pub same_square : ℤ → ℤ → ℤ → ℤ → Bool
same_square y x y' x' = (y' ==ℤ y) && (x' ==ℤ x)

-- `board[y][x] = s`
unfoldable pub put : Board → ℤ → ℤ → Square → Board
put b y x s = λ y' x'. if same_square y x y' x' then s else b y' x'

-- `board[y][x].is_dead = 1; board[y][x].piece = NULL;`
unfoldable pub kill : Board → ℤ → ℤ → Board
kill b y x = put b y x (record (b y x) { is_dead = true; piece = none })

-- `s.piece != NULL && s.piece->type == kind`
unfoldable pub holds : PieceType → Square → Bool
holds kind s = elim s.piece [ none ↦ false | some p ↦ kind_eq (deref p).piece_type kind ]

abbrev pub is_null : Option PieceRef → Bool
is_null none = true
is_null (some _) = false

abbrev pub in_board : ℤ → ℤ → Bool
in_board x y = leb_ℤ (pos 0) x && ltb_ℤ x (pos 8) && leb_ℤ (pos 0) y && ltb_ℤ y (pos 8)
