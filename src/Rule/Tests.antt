-- ===== src/Rule/Tests.antt =====
-- Positions on which the rules of common/rule.c run.
use multiplay_chess.Prelude.{
  ◌≡◌, ◌≢◌, ◌↔◌, ◌∈◌, arith, refl, Bool, true, false, some, none, ℤ, pos, negsuc, minus_one, ◌+ℤ◌,
  ◌-ℤ◌, div_ℤ, mod_ℤ,
}
use multiplay_chess.Piece.{
  Offset, all_directions, PieceType, pawn, rook, king, Team, white, black, ref, deref,
  get_default_queen,
}
use multiplay_chess.Rule.Ending.{is_checkmate_iff, is_stalemate_iff}
use multiplay_chess.Rule.Steps.{IsBeside, legal_king_step}
use multiplay_chess.Rule.Rays.{Sees}
use multiplay_chess.Rule.Slides.{slide_along_iff}
use multiplay_chess.Rule.Rights.{NoRights, king_move-NoRights}
use multiplay_chess.Rule.Sound.{IsSound, legal_move-IsSound}
use multiplay_chess.Fen.{place, tokens, read_fields, read_field, fen_parse, init_startpos}
use multiplay_chess.Fen.Start.{start_ranks, ranks, init_startpos_lem}
use multiplay_chess.Fen.Reach.{init_startpos-IsSound}
use multiplay_chess.Game.{Square, Board, Game, put, kill, holds}
use multiplay_chess.Rule.{
  ray, attacks, attacked_from, is_square_attacked, find_rank, find_square, find_king, is_in_check,
  take_en_passant, shift_piece, move_rook, castle_rook, king_rights, rook_rights, set_en_passant,
  promote, board_after, apply_piece, apply_move, all_between, pawn_ok, castle_ok, step_ok,
  way_clear, slide_along, slide_ok, piece_ok, reaches, is_move_legal, has_move_from, has_move,
  is_checkmate, is_stalemate,
}

-- What a run of the rules computes with.
unfoldable opened : Bool
unfolding put kill holds deref get_default_queen ◌+ℤ◌ ◌-ℤ◌ div_ℤ mod_ℤ ray attacks attacked_from
    is_square_attacked find_rank find_square find_king is_in_check take_en_passant shift_piece
    move_rook castle_rook king_rights rook_rights set_en_passant promote board_after apply_piece
    apply_move all_between pawn_ok castle_ok step_ok way_clear slide_along slide_ok piece_ok reaches
    is_move_legal has_move_from has_move is_checkmate is_stalemate
opened = true

abbrev vacant : Square
vacant = record { piece = none; team = white; is_dead = true; has_moved = false }

abbrev standing : Team → PieceType → Square
standing t k = record { piece = some (ref t k); team = t; is_dead = false; has_moved = false }

abbrev empty_board : Board
empty_board = λ y x. vacant

-- White king a1 (0,0), black rooks on the two lowest ranks.
abbrev back_rank : Board
unfolding opened
back_rank =
    put
      (put
        (put (put empty_board (pos 0) (pos 0) (standing white king)) (pos 0) (pos 7)
          (standing black rook))
        (pos 1) (pos 7) (standing black rook))
      (pos 7) (pos 7) (standing black king)

abbrev game_on : Board → Game
game_on b = record {
  board = b;
  side_to_move = white;
  halfmove_clock = pos 0;
  white_can_castle_kingside = true;
  white_can_castle_queenside = true;
  black_can_castle_kingside = true;
  black_can_castle_queenside = true;
  en_passant_x = minus_one;
  en_passant_y = minus_one;
  is_check = false;
  is_checkmate = false;
  is_stalemate = false;
  fullmove_number = pos 1;
}

mated : is_checkmate (game_on back_rank) ≡ true
unfolding opened
mated = refl

not_stalemate : is_stalemate (game_on back_rank) ≡ false
unfolding opened
not_stalemate = refl

is_checkmate_iff_example :
    (is_checkmate (game_on back_rank) ≡ true)
    ↔ (is_in_check (game_on back_rank) white ≡ true)
      × ((sx sy dx dy : ℤ) → is_move_legal (game_on back_rank) sx sy dx dy ≡ false)
is_checkmate_iff_example = is_checkmate_iff (game_on back_rank)

is_stalemate_iff_example :
    (is_stalemate (game_on back_rank) ≡ true)
    ↔ (is_in_check (game_on back_rank) white ≡ false)
      × ((sx sy dx dy : ℤ) → is_move_legal (game_on back_rank) sx sy dx dy ≡ false)
is_stalemate_iff_example = is_stalemate_iff (game_on back_rank)

abbrev west : Offset
west = record { x = negsuc 0; y = pos 0 }

west_mem : west ∈ all_directions
west_mem = ground arith

slide_along_iff_example :
    (slide_along (game_on back_rank) (pos 7) (pos 0) (pos 0) (pos 0) west ≡ true)
    ↔ Sees back_rank west (pos 0) (pos 0) (pos 7 +ℤ negsuc 0) (pos 0 +ℤ pos 0)
slide_along_iff_example =
    slide_along_iff (game_on back_rank) (pos 7) (pos 0) (pos 0) (pos 0) refl west west_mem refl

rook_no_pawn : rook ≢ pawn
rook_no_pawn = λ e. cc

abbrev lone_king : Board
unfolding opened
lone_king = put empty_board (pos 0) (pos 0) (standing white king)

legal_king_step_example : IsBeside (pos 1 -ℤ pos 0) (pos 1 -ℤ pos 0)
unfolding opened
legal_king_step_example =
    legal_king_step (game_on lone_king) (pos 0) (pos 0) (pos 1) (pos 1) white refl refl

-- The starting position and the move from e2 to e4.
abbrev start : Game
start = init_startpos (game_on empty_board)

unfoldable start_opened : Bool
unfolding opened init_startpos fen_parse tokens read_fields read_field place
start_opened = true

e4_legal : is_move_legal start (pos 4) (pos 1) (pos 4) (pos 3) ≡ true
unfolding start_opened
e4_legal = refl

legal_move-IsSound_example : IsSound (apply_move start (pos 4) (pos 1) (pos 4) (pos 3))
legal_move-IsSound_example =
    legal_move-IsSound start (pos 4) (pos 1) (pos 4) (pos 3)
      (init_startpos-IsSound (game_on empty_board)) e4_legal

init_startpos_lem_example :
    (ranks start.board ≡ start_ranks)
    × (start ≡ record (game_on empty_board) { board = start.board })
init_startpos_lem_example = init_startpos_lem (game_on empty_board)

-- White's king goes to e2 after both sides have opened.
abbrev opened_game : Game
opened_game =
    apply_move (apply_move start (pos 4) (pos 1) (pos 4) (pos 3)) (pos 4) (pos 6) (pos 4) (pos 4)

e5_legal :
    is_move_legal (apply_move start (pos 4) (pos 1) (pos 4) (pos 3)) (pos 4) (pos 6) (pos 4) (pos 4)
    ≡ true
unfolding start_opened
e5_legal = refl

king_e2_legal : is_move_legal opened_game (pos 4) (pos 0) (pos 4) (pos 1) ≡ true
unfolding start_opened
king_e2_legal = refl

king_on_e1 : holds king (opened_game.board (pos 0) (pos 4)) ≡ true
unfolding start_opened
king_on_e1 = refl

opened_game-IsSound : IsSound opened_game
opened_game-IsSound =
    legal_move-IsSound (apply_move start (pos 4) (pos 1) (pos 4) (pos 3)) (pos 4) (pos 6) (pos 4)
      (pos 4)
      (legal_move-IsSound start (pos 4) (pos 1) (pos 4) (pos 3)
        (init_startpos-IsSound (game_on empty_board)) e4_legal)
      e5_legal

king_move-NoRights_example :
    NoRights opened_game.side_to_move (apply_move opened_game (pos 4) (pos 0) (pos 4) (pos 1))
king_move-NoRights_example =
    king_move-NoRights opened_game (pos 4) (pos 0) (pos 4) (pos 1) opened_game-IsSound king_e2_legal
      king_on_e1
