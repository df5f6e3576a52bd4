-- ===== src/Fen/Start.antt =====
-- The starting position that `init_startpos` of common/utils.c sets up.
use multiplay_chess.Prelude.{
  ◌≡◌, refl, true, false, some, List, [], ◌∷◌, map, pos, minus_one, ◌+ℤ◌, ◌-ℤ◌,
}
use multiplay_chess.Piece.{
  PieceType, pawn, knight, bishop, rook, queen, king, Team, white, black, ref,
}
use multiplay_chess.Game.{Square, Board, Game, put}
use multiplay_chess.Rule.{eight}
use multiplay_chess.Fen.{vacant, place, tokens, read_field, read_fields, fen_parse, init_startpos}

abbrev fresh : Team → PieceType → Square
fresh t k = record { piece = some (ref t k); team = t; is_dead = false; has_moved = false }

abbrev back_rank : List PieceType
back_rank = rook ∷ knight ∷ bishop ∷ queen ∷ king ∷ bishop ∷ knight ∷ rook ∷ []

-- The ranks from the first to the eighth, each from file a to file h.
abbrev pub start_ranks : List (List Square)
start_ranks =
    map (fresh white) back_rank
    ∷ map (λ _. fresh white pawn) eight
    ∷ map (λ _. vacant) eight
    ∷ map (λ _. vacant) eight
    ∷ map (λ _. vacant) eight
    ∷ map (λ _. vacant) eight
    ∷ map (λ _. fresh black pawn) eight
    ∷ map (fresh black) back_rank
    ∷ []

abbrev pub ranks : Board → List (List Square)
ranks b = map (λ y. map (λ x. b y x) eight) eight

-- `init_startpos` on any game, whatever was on its board, gives the starting position of chess: the
-- pieces in their order, White to move, every castling right, no en passant square and a halfmove
-- clock of 0; it leaves the other fields as they were.
pub init_startpos_lem :
    (g : Game)
    → (ranks (init_startpos g).board ≡ start_ranks)
      × (init_startpos g ≡ record g {
        board = (init_startpos g).board;
        side_to_move = white;
        halfmove_clock = pos 0;
        white_can_castle_kingside = true;
        white_can_castle_queenside = true;
        black_can_castle_kingside = true;
        black_can_castle_queenside = true;
        en_passant_x = minus_one;
        en_passant_y = minus_one;
      })
unfolding init_startpos fen_parse tokens read_fields read_field place put ◌+ℤ◌ ◌-ℤ◌
init_startpos_lem g = (refl, refl)
