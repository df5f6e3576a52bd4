-- ===== src/Input/Marks.antt =====
-- The squares that the display marks (client/ui/game_screen.c, `calculate_possible_moves`).
use multiplay_chess.Prelude.{
  ◌≡◌, refl, ap, ◌∙◌, not, ◌&&◌, ◌||◌, Bool, Bool-cases, true, false, inl, inr, if◌then◌else◌,
  if-False, List, [], ◌∷◌, ℤ, pos, ◌==ℤ◌, ==ℤ→≡, ==ℤ_refl, leb_ℤ, ltb_ℤ, arith,
}
use multiplay_chess.Piece.{team_eq}
use multiplay_chess.Game.{Game, in_board}
use multiplay_chess.Rule.{eight, is_move_legal}
use multiplay_chess.Client.{Marks, GameState}
use multiplay_chess.Input.{stands}

abbrev pub put_mark : Marks → ℤ → ℤ → Marks
put_mark marks y x = λ y' x'. if (y' ==ℤ y) && (x' ==ℤ x) then true else marks y' x'

-- Whether a living piece of the other team is on the target.
abbrev pub enemy : Game → ℤ → ℤ → ℤ → ℤ → Bool
enemy g sx sy dx dy =
    stands (g.board dy dx) && not (team_eq (g.board dy dx).team (g.board sy sx).team)

unfoldable pub mark_square : ℤ → ℤ → ℤ → ℤ → GameState → GameState
mark_square sx sy dy dx s =
    if (sx ==ℤ dx) && (sy ==ℤ dy)
    then s
    else if is_move_legal s.game sx sy dx dy
    then (if enemy s.game sx sy dx dy
        then record s { capture_moves = put_mark s.capture_moves dy dx }
        else record s { possible_moves = put_mark s.possible_moves dy dx })
    else s

-- The two loops.
unfoldable pub mark_row : ℤ → ℤ → ℤ → List ℤ → GameState → GameState
mark_row sx sy dy [] s = s
mark_row sx sy dy (dx ∷ xs) s = mark_row sx sy dy xs (mark_square sx sy dy dx s)

unfoldable pub mark_rows : ℤ → ℤ → List ℤ → GameState → GameState
mark_rows sx sy [] s = s
mark_rows sx sy (dy ∷ ys) s = mark_rows sx sy ys (mark_row sx sy dy eight s)

unfoldable pub calculate_possible_moves : ℤ → ℤ → Bool → GameState → GameState
calculate_possible_moves sx sy piece_selected s =
    let cleared = record s { possible_moves = λ y x. false; capture_moves = λ y x. false } in
    if not piece_selected
    then cleared
    else if not (stands (s.game.board sy sx))
    then cleared
    else mark_rows sx sy eight cleared

-- A move other than to the square itself that the rules allow.
abbrev pub may_go : Game → ℤ → ℤ → ℤ → ℤ → Bool
may_go g sx sy dx dy = not ((sx ==ℤ dx) && (sy ==ℤ dy)) && is_move_legal g sx sy dx dy

-- What a square's marks become.
record Marked (sx sy x y : ℤ) (visited : Bool) (before after : GameState) : Type 0 where
  game : after.game ≡ before.game
  possible : after.possible_moves y x ≡ (
      before.possible_moves y x
      || (visited && (may_go before.game sx sy x y && not (enemy before.game sx sy x y))))
  capture : after.capture_moves y x ≡ (
      before.capture_moves y x
      || (visited && (may_go before.game sx sy x y && enemy before.game sx sy x y)))

square_here :
    (sx sy dx dy : ℤ) (s : GameState) → Marked sx sy dx dy true s (mark_square sx sy dy dx s)
unfolding mark_square
square_here sx sy dx dy s = record {
  game = ground arith;
  possible = ground (arith, ==ℤ_refl dx, ==ℤ_refl dy);
  capture = ground (arith, ==ℤ_refl dx, ==ℤ_refl dy);
}

square_away :
    (sx sy dx dy x y : ℤ) (s : GameState)
    → ((y ==ℤ dy) && (x ==ℤ dx)) ≡ false
    → Marked sx sy x y false s (mark_square sx sy dy dx s)
unfolding mark_square
square_away sx sy dx dy x y s away = record {
  game = ground arith;
  possible = ground arith;
  capture = ground arith;
}

square-Marked :
    (sx sy dx dy x y : ℤ) (s : GameState)
    → Marked sx sy x y ((y ==ℤ dy) && (x ==ℤ dx)) s (mark_square sx sy dy dx s)
square-Marked sx sy dx dy x y s = elim (Bool-cases ((y ==ℤ dy) && (x ==ℤ dx))) [
  | inl here ↦
      let ey : y ≡ dy = ==ℤ→≡ y dy (ground arith) in
      let ex : x ≡ dx = ==ℤ→≡ x dx (ground arith) in rw (here, ey, ex) (square_here sx sy dx dy s)
  | inr away ↦ rw away (square_away sx sy dx dy x y s away)
]

-- One visit after another.
or_both : (before a b t : Bool) → ((before || (a && t)) || (b && t)) ≡ (before || ((a || b) && t))
or_both before a b t = ground arith

both-Marked :
    (sx sy x y : ℤ) (a b : Bool) (s t u : GameState)
    → Marked sx sy x y a s t
    → Marked sx sy x y b t u
    → Marked sx sy x y (a || b) s u
both-Marked sx sy x y a b s t u k l = record {
  game = l.game ∙ k.game;
  possible =
      l.possible
      ∙ (ap (λ g. t.possible_moves y x || (b && (may_go g sx sy x y && not (enemy g sx sy x y))))
            k.game
          ∙ (ap (λ c. c || (b && (may_go s.game sx sy x y && not (enemy s.game sx sy x y))))
                k.possible
              ∙ or_both (s.possible_moves y x) a b
                  (may_go s.game sx sy x y && not (enemy s.game sx sy x y))));
  capture =
      l.capture
      ∙ (ap (λ g. t.capture_moves y x || (b && (may_go g sx sy x y && enemy g sx sy x y))) k.game
          ∙ (ap (λ c. c || (b && (may_go s.game sx sy x y && enemy s.game sx sy x y))) k.capture
              ∙ or_both (s.capture_moves y x) a b
                  (may_go s.game sx sy x y && enemy s.game sx sy x y)));
}

none-Marked : (sx sy x y : ℤ) (s : GameState) → Marked sx sy x y false s s
none-Marked sx sy x y s = record { game = refl; possible = ground arith; capture = ground arith }

-- The same visits, counted otherwise.
recount :
    {sx sy x y : ℤ} {s t : GameState} (a b : Bool)
    → a ≡ b
    → Marked sx sy x y a s t
    → Marked sx sy x y b s t
recount a b e k = rw (← e) k

visited : ℤ → List ℤ → Bool
visited y [] = false
visited y (d ∷ ds) = (y ==ℤ d) || visited y ds

row-Marked :
    (sx sy dy x y : ℤ) (xs : List ℤ) (s : GameState)
    → Marked sx sy x y ((y ==ℤ dy) && visited x xs) s (mark_row sx sy dy xs s)
unfolding mark_row visited
row-Marked sx sy dy x y [] s = recount false _ (ground arith) (none-Marked sx sy x y s)
row-Marked sx sy dy x y (dx ∷ xs) s = recount _ _ (ground arith) (
    both-Marked sx sy x y _ _ s (mark_square sx sy dy dx s) _ (square-Marked sx sy dx dy x y s)
      (row-Marked sx sy dy x y xs (mark_square sx sy dy dx s)))

rows-Marked :
    (sx sy x y : ℤ) (ys : List ℤ) (s : GameState)
    → Marked sx sy x y (visited y ys && visited x eight) s (mark_rows sx sy ys s)
unfolding mark_rows visited
rows-Marked sx sy x y [] s = none-Marked sx sy x y s
rows-Marked sx sy x y (dy ∷ ys) s =
    recount _ _ (distribute (y ==ℤ dy) (visited y ys) (visited x eight)) (
      both-Marked sx sy x y _ _ s (mark_row sx sy dy eight s) _ (row-Marked sx sy dy x y eight s)
        (rows-Marked sx sy x y ys (mark_row sx sy dy eight s)))
  where
    distribute : (a b c : Bool) → ((a && c) || (b && c)) ≡ ((a || b) && c)
    distribute a b c = ground arith

on_board : (z : ℤ) → leb_ℤ (pos 0) z ≡ true → ltb_ℤ z (pos 8) ≡ true → visited z eight ≡ true
unfolding visited
on_board z l h = ground arith

-- For a selected square with a living piece: a square of the board is marked as a capture exactly if
-- the piece may go there and an enemy stands on it, and as a move exactly if it may go there and none
-- does. The rules decide where it may go.
pub calculate_possible_moves_lem :
    (sx sy x y : ℤ) (s : GameState)
    → stands (s.game.board sy sx) ≡ true
    → in_board x y ≡ true
    → ((calculate_possible_moves sx sy true s).capture_moves y x
        ≡ (may_go s.game sx sy x y && enemy s.game sx sy x y))
      × ((calculate_possible_moves sx sy true s).possible_moves y x
          ≡ (may_go s.game sx sy x y && not (enemy s.game sx sy x y)))
unfolding calculate_possible_moves
calculate_possible_moves_lem sx sy x y s piece h =
    let cleared = record s { possible_moves = λ y x. false; capture_moves = λ y x. false } in
    let ox = on_board x (ground arith) (ground arith) in
    let oy = on_board y (ground arith) (ground arith) in
    let seen : (visited y eight && visited x eight) ≡ true = ground arith in
    let k = recount _ true seen (rows-Marked sx sy x y eight cleared) in
    if-False
      (λ (t : GameState).
        (t.capture_moves y x ≡ (may_go s.game sx sy x y && enemy s.game sx sy x y))
        × (t.possible_moves y x ≡ (may_go s.game sx sy x y && not (enemy s.game sx sy x y))))
      _ _ (not (stands (s.game.board sy sx))) (ap not piece) (k.capture, k.possible)
