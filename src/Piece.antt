-- ===== src/Piece.antt =====
-- The pieces (common/types.h, common/piece.h, common/piece.c). A `piece_t *` only ever points to
-- one of the twelve globals of piece.c, so a pointer is the place of its global in `piece_table`.
pub mod Offsets
use package.multiplay_chess.Prelude.{Bool, true, false, List, [], ◌∷◌, ℤ, pos, negsuc, Text, codes}

pub data PieceType : Type 0 where
  pawn knight bishop rook queen king : PieceType

pub data Team : Type 0 where
  white black : Team

pub record Offset : Type 0 where
  pub x : ℤ
  pub y : ℤ

-- `offset_len` is the length of `offsets`.
pub record Piece : Type 0 where
  pub name : Text
  pub piece_type : PieceType
  pub offsets : List Offset

abbrev pub offset : ℤ → ℤ → Offset
offset x y = record { x = x; y = y }

abbrev pub minus_two : ℤ
minus_two = negsuc 1

abbrev pub all_directions : List Offset
all_directions =
    offset (pos 1) (pos 0)
    ∷ offset (pos 1) (pos 1)
    ∷ offset (pos 0) (pos 1)
    ∷ offset (negsuc 0) (pos 1)
    ∷ offset (negsuc 0) (pos 0)
    ∷ offset (negsuc 0) (negsuc 0)
    ∷ offset (pos 0) (negsuc 0)
    ∷ offset (pos 1) (negsuc 0)
    ∷ []

abbrev pub straight_directions : List Offset
straight_directions =
    offset (pos 1) (pos 0)
    ∷ offset (pos 0) (pos 1)
    ∷ offset (negsuc 0) (pos 0)
    ∷ offset (pos 0) (negsuc 0)
    ∷ []

abbrev pub diagonal_directions : List Offset
diagonal_directions =
    offset (pos 1) (pos 1)
    ∷ offset (negsuc 0) (pos 1)
    ∷ offset (negsuc 0) (negsuc 0)
    ∷ offset (pos 1) (negsuc 0)
    ∷ []

abbrev pub knight_jumps : List Offset
knight_jumps =
    offset (pos 1) (pos 2)
    ∷ offset (pos 2) (pos 1)
    ∷ offset (pos 2) (negsuc 0)
    ∷ offset (pos 1) minus_two
    ∷ offset (negsuc 0) minus_two
    ∷ offset minus_two (negsuc 0)
    ∷ offset minus_two (pos 1)
    ∷ offset (negsuc 0) (pos 2)
    ∷ []

abbrev white_king : Piece
white_king = record { name = codes "White King"; piece_type = king; offsets = all_directions }

abbrev white_queen : Piece
white_queen = record { name = codes "White Queen"; piece_type = queen; offsets = all_directions }

abbrev white_rook : Piece
white_rook = record { name = codes "White Rook"; piece_type = rook; offsets = straight_directions }

abbrev white_bishop : Piece
white_bishop = record {
  name = codes "White Bishop";
  piece_type = bishop;
  offsets = diagonal_directions;
}

abbrev white_knight : Piece
white_knight = record { name = codes "White Knight"; piece_type = knight; offsets = knight_jumps }

-- Its `offset_len` is 0: pawns have rules of their own.
abbrev white_pawn : Piece
white_pawn = record { name = codes "White Pawn"; piece_type = pawn; offsets = [] }

abbrev black_king : Piece
black_king = record { name = codes "Black King"; piece_type = king; offsets = all_directions }

abbrev black_queen : Piece
black_queen = record { name = codes "Black Queen"; piece_type = queen; offsets = all_directions }

abbrev black_rook : Piece
black_rook = record { name = codes "Black Rook"; piece_type = rook; offsets = straight_directions }

abbrev black_bishop : Piece
black_bishop = record {
  name = codes "Black Bishop";
  piece_type = bishop;
  offsets = diagonal_directions;
}

abbrev black_knight : Piece
black_knight = record { name = codes "Black Knight"; piece_type = knight; offsets = knight_jumps }

abbrev black_pawn : Piece
black_pawn = record { name = codes "Black Pawn"; piece_type = pawn; offsets = [] }

-- `&piece`, as the row and the column of `piece_table` that hold it.
pub data PieceRef : Type 0 where
  ref : Team → PieceType → PieceRef

-- `*ref`
unfoldable pub deref : PieceRef → Piece
deref (ref white pawn) = white_pawn
deref (ref white knight) = white_knight
deref (ref white bishop) = white_bishop
deref (ref white rook) = white_rook
deref (ref white queen) = white_queen
deref (ref white king) = white_king
deref (ref black pawn) = black_pawn
deref (ref black knight) = black_knight
deref (ref black bishop) = black_bishop
deref (ref black rook) = black_rook
deref (ref black queen) = black_queen
deref (ref black king) = black_king

abbrev pub piece_table : Team → PieceType → PieceRef
piece_table team kind = ref team kind

unfoldable pub get_default_queen : Team → PieceRef
get_default_queen team = piece_table team queen

abbrev pub team_eq : Team → Team → Bool
team_eq white white = true
team_eq black black = true
team_eq _ _ = false

-- `1 - team`
abbrev pub other_team : Team → Team
other_team white = black
other_team black = white

abbrev pub kind_eq : PieceType → PieceType → Bool
kind_eq pawn pawn = true
kind_eq knight knight = true
kind_eq bishop bishop = true
kind_eq rook rook = true
kind_eq queen queen = true
kind_eq king king = true
kind_eq _ _ = false
