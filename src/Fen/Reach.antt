-- ===== src/Fen/Reach.antt =====
-- The positions that `init_startpos` (common/utils.c) and legal moves (common/rule.c) lead to.
use multiplay_chess.Prelude.{
  ◌≡◌, refl, Bool, true, false, not, ◌&&◌, any, any-false_mem, ℤ, pos, ◌+ℤ◌, ◌-ℤ◌, arith,
}
use multiplay_chess.Piece.{Team, white, black, deref}
use multiplay_chess.Game.{Board, Game, put, holds, in_board, same_square}
use multiplay_chess.Rule.{
  eight, is_king_of, is_in_check, is_square_attacked, attacked_from, attacks, ray, find_king,
  find_square, find_rank, is_move_legal, apply_move,
}
use multiplay_chess.Rule.Moves.{in_board→eight}
use multiplay_chess.Rule.Pawns.{same→≡}
use multiplay_chess.Rule.Kings.{SoleKing}
use multiplay_chess.Rule.Sound.{IsSound, legal_move-IsSound}
use multiplay_chess.Fen.{place, tokens, read_field, read_fields, fen_parse, init_startpos}

-- A king of the team stands off (x, y).
abbrev another_king : Board → Team → ℤ → ℤ → Bool
another_king b t x y =
    any (λ i. any (λ j. is_king_of t (b j i) && not (same_square y x j i)) eight) eight

sole_of_search :
    (b : Board) (t : Team) (x y : ℤ)
    → another_king b t x y ≡ false
    → (x' y' : ℤ) → in_board x' y' ≡ true
    → is_king_of t (b y' x') ≡ true
    → (x' ≡ x) × (y' ≡ y)
sole_of_search b t x y h x' y' i k =
    let (mx, my) = in_board→eight x' y' i in
    let f =
      any-false_mem (λ i. any (λ j. is_king_of t (b j i) && not (same_square y x j i)) eight) x'
        eight mx h in
    let s =
      any-false_mem (λ j. is_king_of t (b j x') && not (same_square y x j x')) y' eight my f in
    let (ey, ex) = same→≡ y x y' x' (ground arith) in (ex, ey)

-- The starting position.
module _ (g : Game) where
  abbrev start : Board
  start = (init_startpos g).board

  kings_at_start : (t : Team) → SoleKing start t
  unfolding init_startpos fen_parse tokens read_fields read_field place put ◌+ℤ◌ ◌-ℤ◌ holds deref
  kings_at_start white = record {
    x = pos 4;
    y = pos 0;
    inside = refl;
    here = refl;
    sole = sole_of_search start white (pos 4) (pos 0) refl;
  }
  kings_at_start black = record {
    x = pos 4;
    y = pos 7;
    inside = refl;
    here = refl;
    sole = sole_of_search start black (pos 4) (pos 7) refl;
  }

  safe_at_start : is_in_check (init_startpos g) black ≡ false
  unfolding init_startpos fen_parse tokens read_fields read_field place put ◌+ℤ◌ ◌-ℤ◌ holds deref
      is_in_check is_square_attacked attacked_from attacks ray find_king find_square find_rank
  safe_at_start = refl

  pub init_startpos-IsSound : IsSound (init_startpos g)
  unfolding init_startpos fen_parse tokens read_fields read_field place put ◌+ℤ◌ ◌-ℤ◌
  init_startpos-IsSound = record {
    kings = kings_at_start;
    safe = safe_at_start;
    victim = λ h. absurd (ground arith);
  }

-- The positions of games that start with `init_startpos` and go on with legal moves.
pub data Reached : Game → Type 0 where
  at_start : (g : Game) → Reached (init_startpos g)
  after_move :
      (g : Game) (sx sy dx dy : ℤ)
      → Reached g
      → is_move_legal g sx sy dx dy ≡ true
      → Reached (apply_move g sx sy dx dy)

-- In every position that legal moves lead to from the starting position, each team has one king on
-- the board, the side that has just moved is not in check, and a piece that may be taken stands
-- before the en passant square.
pub Reached-IsSound : {g : Game} → Reached g → IsSound g
Reached-IsSound (at_start g) = init_startpos-IsSound g
Reached-IsSound (after_move g sx sy dx dy r legal) =
    legal_move-IsSound g sx sy dx dy (Reached-IsSound r) legal
