-- ===== src/Coordinate.antt =====
-- Chess coordinates (server/handlers/move.c): "a1" is the square (0, 0).
use multiplay_chess.Prelude.{
  ℕ, ◌+◌, ◌-◌, ◌%◌, ltb, ◌≡◌, true, ◌||◌, if◌then◌else◌, Option, none, some, [], ◌∷◌, ℤ, pos,
  negsuc, Text, arith,
}
use multiplay_chess.Game.{in_board}

-- A `char` kept in a byte.
abbrev to_char : ℕ → ℤ → ℕ
to_char base (pos n) = (base + n) % 256
to_char base (negsuc n) = (base + 255 - n % 256) % 256

-- `none` where the C function returns false and leaves `*x` and `*y` alone. A null pointer is the
-- text with no byte here: both fail the test of the length.
unfoldable pub parse_chess_coordinate : Text → Option (ℤ × ℤ)
parse_chess_coordinate (file ∷ rank ∷ []) =
    if ltb file b'a' || ltb b'h' file || ltb rank b'1' || ltb b'8' rank
    then none
    else some (pos (file - b'a'), pos (rank - b'1'))
parse_chess_coordinate _ = none

unfoldable pub format_chess_coordinate : ℤ → ℤ → Text
format_chess_coordinate x y = to_char b'a' x ∷ to_char b'1' y ∷ []

-- Reading back a written square of the board gives the square.
pub parse-format :
    (x y : ℤ)
    → in_board x y ≡ true
    → parse_chess_coordinate (format_chess_coordinate x y) ≡ some (x, y)
unfolding parse_chess_coordinate format_chess_coordinate
parse-format (pos m) (pos n) h = ground arith
parse-format (pos m) (negsuc n) h = absurd (ground arith)
parse-format (negsuc m) y h = absurd (ground arith)

-- A text that is read as a square is exactly how that square is written, and the square is on the
-- board.
pub format-parse :
    (s : Text) {x y : ℤ}
    → parse_chess_coordinate s ≡ some (x, y)
    → (format_chess_coordinate x y ≡ s) × (in_board x y ≡ true)
unfolding parse_chess_coordinate format_chess_coordinate
format-parse [] h = absurd (cc)
format-parse (f ∷ []) h = absurd (cc)
format-parse (f ∷ r ∷ []) h = ground arith
format-parse (f ∷ r ∷ c ∷ s) h = absurd (cc)
