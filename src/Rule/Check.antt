-- ===== src/Rule/Check.antt =====
-- Attacks and checks: `is_square_attacked` and `is_in_check` of common/rule.c.
use multiplay_chess.Prelude.{
  ℕ, zero, suc, Bool, true, false, not, ◌&&◌, ◌||◌, Option, none, some, List, [], ◌∷◌, any, ℤ, pos,
  negsuc, ◌+ℤ◌, ◌-ℤ◌, ◌==ℤ◌,
}
use multiplay_chess.Piece.{
  pawn, knight, bishop, rook, queen, king, Team, white, black, Offset, Piece, deref, team_eq,
  other_team,
}
use multiplay_chess.Game.{Square, Board, Game, holds, is_null, in_board}

-- The values of `for (int i = 0; i < 8; i++)`.
abbrev pub eight : List ℤ
eight = pos 0 ∷ pos 1 ∷ pos 2 ∷ pos 3 ∷ pos 4 ∷ pos 5 ∷ pos 6 ∷ pos 7 ∷ []

-- `s.is_dead || s.piece == NULL || s.team != team`, negated.
abbrev pub stands_for : Team → Square → Bool
stands_for team s = not (s.is_dead || is_null s.piece || not (team_eq s.team team))

-- `team == TEAM_WHITE ? +1 : -1`
abbrev pub forward : Team → ℤ
forward white = pos 1
forward black = negsuc 0

-- The `while (in_board(nx, ny))` of a sliding attacker.
unfoldable pub ray : ℕ → Board → ℤ → ℤ → Offset → ℤ → ℤ → Bool
ray zero b x y o nx ny = false
ray (suc fuel) b x y o nx ny = elim (in_board nx ny) [
  | false ↦ false
  | true ↦ elim ((nx ==ℤ x) && (ny ==ℤ y)) [
    | true ↦ true
    | false ↦ elim (b ny nx).is_dead [
      | false ↦ false
      | true ↦ ray fuel b x y o (nx +ℤ o.x) (ny +ℤ o.y)
    ]
  ]
]

-- A ray that starts beside a square of the board leaves it within eight squares.
abbrev pub ray_fuel : ℕ
ray_fuel = 9

-- The `switch` of `is_square_attacked`, for a piece of `by_team` on (i, j).
unfoldable pub attacks : Board → ℤ → ℤ → Team → ℤ → ℤ → Piece → Bool
attacks b x y by_team i j p = elim p.piece_type [
  | pawn ↦ (j +ℤ forward by_team ==ℤ y) && ((i -ℤ pos 1 ==ℤ x) || (i +ℤ pos 1 ==ℤ x))
  | knight ↦ any (λ o. (i +ℤ o.x ==ℤ x) && (j +ℤ o.y ==ℤ y)) p.offsets
  | king ↦ any (λ o. (i +ℤ o.x ==ℤ x) && (j +ℤ o.y ==ℤ y)) p.offsets
  | bishop ↦ any (λ o. ray ray_fuel b x y o (i +ℤ o.x) (j +ℤ o.y)) p.offsets
  | rook ↦ any (λ o. ray ray_fuel b x y o (i +ℤ o.x) (j +ℤ o.y)) p.offsets
  | queen ↦ any (λ o. ray ray_fuel b x y o (i +ℤ o.x) (j +ℤ o.y)) p.offsets
]

-- The body of the two loops of `is_square_attacked`.
unfoldable pub attacked_from : Board → ℤ → ℤ → Team → ℤ → ℤ → Bool
attacked_from b x y by_team i j = elim (stands_for by_team (b j i)) [
  | false ↦ false
  | true ↦ elim (b j i).piece [ none ↦ false | some p ↦ attacks b x y by_team i j (deref p) ]
]

unfoldable pub is_square_attacked : Game → ℤ → ℤ → Team → Bool
is_square_attacked g x y by_team =
    any (λ i. any (λ j. attacked_from g.board x y by_team i j) eight) eight

abbrev pub is_king_of : Team → Square → Bool
is_king_of team s = stands_for team s && holds king s

-- The search for the king, a file at a time: the first rank of the first file that has one.
unfoldable pub find_rank : (Square → Bool) → Board → ℤ → List ℤ → Option ℤ
find_rank test b x [] = none
find_rank test b x (y ∷ ys) = elim (test (b y x)) [ true ↦ some y | false ↦ find_rank test b x ys ]

unfoldable pub find_square : (Square → Bool) → Board → List ℤ → Option (ℤ × ℤ)
find_square test b [] = none
find_square test b (x ∷ xs) = elim (find_rank test b x eight) [
  | some y ↦ some (x, y)
  | none ↦ find_square test b xs
]

unfoldable pub find_king : Board → Team → Option (ℤ × ℤ)
find_king b team = find_square (is_king_of team) b eight

unfoldable pub is_in_check : Game → Team → Bool
is_in_check g team = elim (find_king g.board team) [
  | none ↦ false
  | some (x, y) ↦ is_square_attacked g x y (other_team team)
]
