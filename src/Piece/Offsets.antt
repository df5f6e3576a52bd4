-- ===== src/Piece/Offsets.antt =====
-- What the offset tables of common/piece.c hold.
use multiplay_chess.Prelude.{◌≡◌, refl}
use multiplay_chess.Piece.{PieceType, pawn, knight, bishop, rook, queen, king, Team, white, black}
use multiplay_chess.Piece.{ref, deref}

pub deref-piece_type : (t : Team) (k : PieceType) → (deref (ref t k)).piece_type ≡ k
unfolding deref
deref-piece_type white pawn = refl
deref-piece_type white knight = refl
deref-piece_type white bishop = refl
deref-piece_type white rook = refl
deref-piece_type white queen = refl
deref-piece_type white king = refl
deref-piece_type black pawn = refl
deref-piece_type black knight = refl
deref-piece_type black bishop = refl
deref-piece_type black rook = refl
deref-piece_type black queen = refl
deref-piece_type black king = refl
