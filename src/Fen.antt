-- ===== src/Fen.antt =====
-- Board set-up (common/utils.c): `clear_board`, `fen_parse`, `init_startpos`. `strdup` is taken to
-- succeed. `strtok`, `strchr`, `atoi` and the tests of ctype.h are those of the C library on ASCII.
pub mod Start
pub mod Reach
use package.multiplay_chess.Prelude.{
  ℕ, zero, suc, ◌+◌, ◌-◌, ◌*◌, ltb, leb, ◌==◌, Bool, true, false, not, ◌&&◌, ◌||◌, if◌then◌else◌,
  Option, none, some, List, [], ◌∷◌, any, ℤ, pos, negsuc, minus_one, ◌+ℤ◌, ◌-ℤ◌, leb_ℤ, ltb_ℤ, Text,
  codes,
}
use package.multiplay_chess.Piece.{
  PieceType, pawn, knight, bishop, rook, queen, king, Team, white, black, piece_table,
}
use package.multiplay_chess.Game.{Square, Board, Game, put, in_board}

abbrev pub vacant : Square
vacant = record { piece = none; team = white; is_dead = true; has_moved = false }

-- Every square of the board is written.
abbrev pub clear_board : Game → Game
clear_board g = record g { board = λ y x. vacant }

abbrev is_digit : ℕ → Bool
is_digit c = leb b'0' c && leb c b'9'

abbrev is_upper : ℕ → Bool
is_upper c = leb b'A' c && leb c b'Z'

abbrev is_lower : ℕ → Bool
is_lower c = leb b'a' c && leb c b'z'

abbrev to_lower : ℕ → ℕ
to_lower c = if is_upper c then c + 32 else c

-- The `switch (lc)`; `none` is its default case.
abbrev pub piece_letter : ℕ → Option PieceType
piece_letter lc =
    if lc == b'k'
    then some king
    else if lc == b'q'
    then some queen
    else if lc == b'r'
    then some rook
    else if lc == b'b'
    then some bishop
    else if lc == b'n'
    then some knight
    else if lc == b'p'
    then some pawn
    else none

-- The end of the first field: read to its end, `return false` at a bad letter, or a write beyond
-- the eighth file, which is undefined in C.
pub data Placement : Type 0 where
  placed : Board → Placement
  rejected : Board → Placement
  overflow : Placement

abbrev new_piece : Team → PieceType → Square
new_piece team kind = record {
  piece = some (piece_table team kind);
  team = team;
  is_dead = false;
  has_moved = false;
}

unfoldable pub place : Text → ℤ → ℤ → Board → Placement
place [] x y b = placed b
place (c ∷ p) x y b = elim (leb_ℤ (pos 0) y) [
  | false ↦ placed b
  | true ↦ elim (c == b'/') [
    | true ↦ place p (pos 0) (y -ℤ pos 1) b
    | false ↦ elim (is_digit c) [
      | true ↦ place p (x +ℤ pos (c - b'0')) y b
      | false ↦ elim (piece_letter (to_lower c)) [
        | none ↦ rejected b
        | some kind ↦ elim (ltb_ℤ x (pos 8)) [
          | false ↦ overflow
          | true ↦
              place p (x +ℤ pos 1) y
                (put b y x (new_piece (if is_upper c then white else black) kind))
        ]
      ]
    ]
  ]
]

abbrev is_space : ℕ → Bool
is_space c = c == b' '

-- The rest of the token at hand and the text behind it, as `strtok` cuts at one space.
abbrev pub push_char : ℕ → List Text → List Text
push_char c [] = (c ∷ []) ∷ []
push_char c (t ∷ ts) = (c ∷ t) ∷ ts

-- `cut` splits at every space, with an empty part where two spaces meet.
abbrev pub cut : Text → List Text
cut [] = [] ∷ []
cut (c ∷ s) = let rest = cut s in if is_space c then [] ∷ rest else push_char c rest

abbrev non_empty : List Text → List Text
non_empty [] = []
non_empty ([] ∷ ts) = non_empty ts
non_empty ((c ∷ t) ∷ ts) = (c ∷ t) ∷ non_empty ts

-- What `strtok(s, " ")` gives in turn: the parts that are not empty.
unfoldable pub tokens : Text → List Text
tokens s = non_empty (cut s)

-- `s[i]`, with the terminating zero.
abbrev pub char_at : Text → ℕ → ℕ
char_at [] i = 0
char_at (c ∷ s) zero = c
char_at (c ∷ s) (suc i) = char_at s i

-- `strchr(tok, c) != NULL`
abbrev has_char : Text → ℕ → Bool
has_char tok c = any (λ d. d == c) tok

abbrev digits : ℕ → Text → ℕ
digits acc [] = acc
digits acc (c ∷ s) = elim (is_digit c) [ true ↦ digits (acc * 10 + (c - b'0')) s | false ↦ acc ]

abbrev after_spaces : Text → Text
after_spaces [] = []
after_spaces (c ∷ s) =
    let rest = after_spaces s in if is_space c || leb 9 c && leb c 13 then rest else c ∷ s

abbrev from_sign : Text → ℤ
from_sign [] = pos 0
from_sign (c ∷ s) =
    if c == b'-'
    then pos 0 -ℤ pos (digits 0 s)
    else if c == b'+'
    then pos (digits 0 s)
    else pos (digits 0 (c ∷ s))

abbrev pub atoi : Text → ℤ
atoi s = from_sign (after_spaces s)

-- What `fen_parse` returns with the game that it leaves, or a write outside of the board.
pub data Parsed : Type 0 where
  returns : Bool → Game → Parsed
  out_of_board : Parsed

-- The `switch (fld)`: the field read, a `return false`, or the write outside.
pub data Field : Type 0 where
  field_ok : Game → Field
  field_bad : Game → Field
  field_fault : Field

abbrev en_passant_square : ℤ → ℤ → Game → Field
en_passant_square file rank g =
    if in_board file rank
    then field_ok (record g { en_passant_x = file; en_passant_y = rank })
    else field_bad g

abbrev en_passant_field : Text → Game → Field
en_passant_field tok g =
    if char_at tok 0 == b'-'
    then field_ok (record g { en_passant_x = minus_one; en_passant_y = minus_one })
    else if (is_upper (char_at tok 0) || is_lower (char_at tok 0)) && is_digit (char_at tok 1)
    then en_passant_square (pos (to_lower (char_at tok 0)) -ℤ pos b'a')
        (pos (char_at tok 1) -ℤ pos b'1') g
    else field_bad g

abbrev placement_field : Text → Game → Field
placement_field tok g = elim (place tok (pos 0) (pos 7) g.board) [
  | placed b ↦ field_ok (record g { board = b })
  | rejected b ↦ field_bad (record g { board = b })
  | overflow ↦ field_fault
]

unfoldable pub read_field : ℕ → Text → Game → Field
read_field zero tok g = placement_field tok g
read_field (suc zero) tok g =
    field_ok (record g { side_to_move = if char_at tok 0 == b'b' then black else white })
read_field (suc (suc zero)) tok g = field_ok (record g {
  white_can_castle_kingside = has_char tok b'K';
  white_can_castle_queenside = has_char tok b'Q';
  black_can_castle_kingside = has_char tok b'k';
  black_can_castle_queenside = has_char tok b'q';
})
read_field (suc (suc (suc zero))) tok g = en_passant_field tok g
read_field (suc (suc (suc (suc zero)))) tok g = field_ok (record g { halfmove_clock = atoi tok })
read_field _ tok g = field_ok g

-- `while (tok && fld < 6)`
unfoldable pub read_fields : ℕ → List Text → Game → Parsed
read_fields fld [] g = returns (leb 5 fld) g
read_fields fld (tok ∷ toks) g = elim (ltb fld 6) [
  | false ↦ returns (leb 5 fld) g
  | true ↦ elim (read_field fld tok g) [
    | field_ok g' ↦ read_fields (fld + 1) toks g'
    | field_bad g' ↦ returns false g'
    | field_fault ↦ out_of_board
  ]
]

unfoldable pub fen_parse : Game → Text → Parsed
fen_parse g fen = read_fields 0 (tokens fen) (clear_board g)

abbrev pub starting_fen : Text
starting_fen = codes "rnbqkbnr/pppppppp/8/8/8/8/PPPPPPPP/RNBQKBNR w KQkq - 0 1"

-- The answer of `fen_parse` is dropped.
abbrev pub game_of : Game → Parsed → Game
game_of g (returns ok g') = g'
game_of g out_of_board = g

unfoldable pub init_startpos : Game → Game
init_startpos g = game_of g (fen_parse g starting_fen)
