-- ===== src/Input/Places.antt =====
-- The squares on the screen: where `draw_chess_board` of client/ui/game_screen.c puts them, and where
-- `coord_to_board_pos` of client/ui/input.c looks for them.
use multiplay_chess.Prelude.{
  ℕ, ◌+◌, ◌-◌, ◌*◌, ◌⊎◌, inl, inr, ◌≤◌, ◌<◌, ◌≡◌, refl, ap, true, some, ℤ, pos, ◌-ℤ◌, -ℤ_parts,
  eq_of_parts, div_ℤ, arith,
}
use multiplay_chess.Piece.{Team, white, black}
use multiplay_chess.Game.{in_board}
use multiplay_chess.Input.{board_square, coord_to_board_pos}

-- A square as it is drawn: which square of the board, and its corner in the window of the board.
pub record Cell : Type 0 where
  pub actual_col : ℤ
  pub actual_row : ℤ
  pub x : ℕ
  pub y : ℕ

-- The turn of `draw_chess_board` at a row and a column.
unfoldable pub cell : Team → ℕ → ℕ → Cell
cell local_team row col = record {
  actual_col = elim local_team [ black ↦ pos 7 -ℤ pos col | white ↦ pos col ];
  actual_row = elim local_team [ black ↦ pos row | white ↦ pos 7 -ℤ pos row ];
  x = 4 + col * 7;
  y = 2 + row * 3;
}

minus : (a b : ℕ) → b ≤ a → pos a -ℤ pos b ≡ pos (a - b)
minus a b h = eq_of_parts (pos a -ℤ pos b) (pos (a - b)) (omega (arith, -ℤ_parts (pos a) (pos b)))

-- A place less two offsets, and the square of `size` that it falls on.
offset : (n a b k : ℕ) → n ≡ a + b + k → pos n -ℤ pos a -ℤ pos b ≡ pos k
offset n a b k h =
    rw (minus n a (omega arith), minus (n - a) b (omega arith)) (ap pos (omega arith))

square_of :
    (size k i : ℕ) → size ≡ 7 ⊎ size ≡ 3 → i < size → div_ℤ (pos (k * size + i)) (pos size) ≡ pos k
unfolding div_ℤ
square_of size k i (inl e) h = rw e (ap pos (omega arith))
square_of size k i (inr e) h = rw e (ap pos (omega arith))

mirrored :
    (t : Team) (col row : ℕ)
    → col < 8
    → row < 8
    → in_board (board_square t (pos col) (pos row)).0 (board_square t (pos col) (pos row)).1 ≡ true
mirrored white col row hc hr = rw (minus 7 row (omega arith)) (ground arith)
mirrored black col row hc hr = rw (minus 7 col (omega arith)) (ground arith)

-- For either side, a click anywhere within the seven by three characters of a drawn square gives the
-- square of the board that is drawn there.
pub coord_to_board_pos-cell :
    (t : Team) (row col i j : ℕ)
    → row < 8
    → col < 8
    → i < 7
    → j < 3
    → coord_to_board_pos t (pos (2 + (cell t row col).x + i)) (pos (2 + (cell t row col).y + j))
      ≡ some ((cell t row col).actual_col, (cell t row col).actual_row)
unfolding coord_to_board_pos cell
coord_to_board_pos-cell t row col i j hr hc hi hj =
    let x = 2 + (4 + col * 7) + i in
    let y = 2 + (2 + row * 3) + j in
    let rx : pos x -ℤ pos 2 -ℤ pos 4 ≡ pos (col * 7 + i) =
      offset x 2 4 (col * 7 + i) (omega arith) in
    let ry : pos y -ℤ pos 2 -ℤ pos 2 ≡ pos (row * 3 + j) =
      offset y 2 2 (row * 3 + j) (omega arith) in
    let dx = square_of 7 col i (inl refl) hi in
    let dy = square_of 3 row j (inr refl) hj in
    let m = mirrored t col row hc hr in
    rw (rx, ry, minus x 2 (omega arith), minus y 2 (omega arith), dx, dy) (ground arith)
