-- ===== src/Client/Mirror.antt =====
-- The moves that the client takes from the server (client/game_state.c, `apply_move_from_server`),
-- against those that the server accepts (server/handlers/move.c).
use multiplay_chess.Prelude.{
  ℕ, ◌+◌, ◌-◌, ◌≤◌, ◌≡◌, refl, sym, ◌∙◌, ◌⊎◌, Bool, true, false, ◌||◌, Bool-cases, ltb, leb, inl,
  inr, Option, none, some, [], ◌∷◌, ℤ, pos, ◌-ℤ◌, -ℤ_parts, eq_of_parts, arith, Text,
}
use multiplay_chess.Game.{Game}
use multiplay_chess.Rule.{apply_move}
use multiplay_chess.Coordinate.{parse_chess_coordinate}
use multiplay_chess.Protocol.{MoveRequest}
use multiplay_chess.Match.{ActiveGame}
use multiplay_chess.Server.Turn.{Seat}
use multiplay_chess.Server.Outcome.{Accepted}
use multiplay_chess.Client.{off_range, apply_at, apply_move_from_server}

-- A move between two squares, where both are read.
abbrev pub apply_squares : Game → Option (ℤ × ℤ) → Option (ℤ × ℤ) → Bool × Game
apply_squares g (some (sx, sy)) (some (dx, dy)) = (true, apply_move g sx sy dx dy)
apply_squares g _ _ = (false, g)

off_range_byte : (c base : ℕ) → off_range (pos c -ℤ pos base) ≡ (ltb c base || leb (base + 8) c)
off_range_byte c base = ground (arith, -ℤ_parts (pos c) (pos base))

diff : (a b : ℕ) → b ≤ a → pos a -ℤ pos b ≡ pos (a - b)
diff a b h = eq_of_parts (pos a -ℤ pos b) (pos (a - b)) (omega (arith, -ℤ_parts (pos a) (pos b)))

no_target : (g : Game) (o : Option (ℤ × ℤ)) → apply_squares g o none ≡ (false, g)
no_target g none = refl
no_target g (some (x, y)) = refl

-- The client's tests of two bytes and the server's agree.
abbrev Reads : ℕ → ℕ → Type 0
Reads a b =
    (parse_chess_coordinate (a ∷ b ∷ []) ≡ none)
      × ((off_range (pos a -ℤ pos b'a') || off_range (pos b -ℤ pos b'1')) ≡ true)
    ⊎ (parse_chess_coordinate (a ∷ b ∷ []) ≡ some (pos a -ℤ pos b'a', pos b -ℤ pos b'1'))
      × ((off_range (pos a -ℤ pos b'a') || off_range (pos b -ℤ pos b'1')) ≡ false)

reads : (a b : ℕ) → Reads a b
unfolding parse_chess_coordinate
reads a b = elim (Bool-cases (off_range (pos a -ℤ pos b'a') || off_range (pos b -ℤ pos b'1'))) [
  | inl out ↦ inl (ground (arith, off_range_byte a b'a', off_range_byte b b'1'), out)
  | inr within ↦
      let ea : (ltb a b'a' || leb (b'a' + 8) a) ≡ false =
        sym (off_range_byte a b'a') ∙ ground arith in
      let eb : (ltb b b'1' || leb (b'1' + 8) b) ≡ false =
        sym (off_range_byte b b'1') ∙ ground arith in
      inr (rw (diff a b'a' (ground arith), diff b b'1' (ground arith)) (ground arith), within)
]

two_squares :
    (g : Game) (a b a' b' : ℕ)
    → apply_at g a b a' b'
      ≡ apply_squares g
          (parse_chess_coordinate (a ∷ b ∷ []))
          (parse_chess_coordinate (a' ∷ b' ∷ []))
unfolding apply_at
two_squares g a b a' b' = elim (reads a b) [
  | inl (unread, out) ↦ rw unread (ground arith)
  | inr (read, within) ↦ elim (reads a' b') [
    | inl (unread, out) ↦ rw (read, unread) (ground arith)
    | inr (read', within') ↦ rw (read, read') (ground arith)
  ]
]

-- The client applies exactly the moves whose two squares the server can read, to its own copy of the
-- game; any other text leaves the copy as it is and is refused.
pub apply_move_from_server_lem :
    (g : Game) (from to : Text)
    → apply_move_from_server g (some from) (some to)
      ≡ apply_squares g (parse_chess_coordinate from) (parse_chess_coordinate to)
unfolding apply_move_from_server parse_chess_coordinate apply_at
apply_move_from_server_lem g [] to = refl
apply_move_from_server_lem g (a ∷ []) to = refl
apply_move_from_server_lem g (a ∷ b ∷ c ∷ r) to = refl
apply_move_from_server_lem g (a ∷ b ∷ []) [] = sym (no_target g _)
apply_move_from_server_lem g (a ∷ b ∷ []) (a' ∷ []) = sym (no_target g _)
apply_move_from_server_lem g (a ∷ b ∷ []) (a' ∷ b' ∷ c' ∷ r) = sym (no_target g _)
apply_move_from_server_lem g (a ∷ b ∷ []) (a' ∷ b' ∷ []) = two_squares g a b a' b'

-- A move that the server accepts is applied by the client on its copy of the game, with the same
-- squares: a copy that stood at the server's position stands at the server's new position.
pub client_follows :
    (g : ActiveGame) (seat : Seat) (req : MoveRequest) (a : Accepted g seat req)
    → apply_move_from_server g.game_state (some req.from) (some req.to)
      ≡ (true, apply_move g.game_state a.sx a.sy a.dx a.dy)
client_follows g seat req a =
    apply_move_from_server_lem g.game_state req.from req.to ∙ rw (a.reads_from, a.reads_to)
