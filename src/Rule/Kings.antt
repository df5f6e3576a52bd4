-- ===== src/Rule/Kings.antt =====
-- The search for a king in `is_in_check` of common/rule.c and the squares a king may be taken on.
use multiplay_chess.Prelude.{
  ◌≡◌, refl, sym, ◌∙◌, ap, inl, inr, Bool, true, false, Bool-cases, Option-cases, some-injective,
  any, any-of_mem, none, some, List, [], ◌∷◌, ◌∈◌, ℤ, arith,
}
use multiplay_chess.Piece.{Team, white, black, PieceRef, deref, team_eq, other_team}
use multiplay_chess.Game.{Square, Board, Game, in_board}
use multiplay_chess.Rule.{
  eight, stands_for, is_king_of, attacks, attacked_from, is_square_attacked, find_rank, find_square,
  find_king, is_in_check,
}
use multiplay_chess.Rule.Moves.{Passes, in_board→eight, stands_for-team}
use multiplay_chess.Rule.Attack.{capture_iff_attack}

-- The team has one king on the board.
pub record SoleKing (b : Board) (t : Team) : Type 0 where
  pub x : ℤ
  pub y : ℤ
  pub inside : in_board x y ≡ true
  pub here : is_king_of t (b y x) ≡ true
  pub sole :
      (x' y' : ℤ) → in_board x' y' ≡ true → is_king_of t (b y' x') ≡ true → (x' ≡ x) × (y' ≡ y)

pub eight→in_board : (x y : ℤ) → x ∈ eight → y ∈ eight → in_board x y ≡ true
eight→in_board x y mx my = ground arith

module _ (test : Square → Bool) (b : Board) where
  find_rank-some :
      (x y : ℤ) (ys : List ℤ) → find_rank test b x ys ≡ some y → (y ∈ ys) × (test (b y x) ≡ true)
  unfolding find_rank
  find_rank-some x y [] h = absurd (cc)
  find_rank-some x y (z ∷ ys) h = elim (Bool-cases (test (b z x))) [
    | inl t ↦ let e : y ≡ z = sym (some-injective (rw (t, find_rank) at h)) in (inl e, rw e t)
    | inr f ↦ let (m, t) = find_rank-some x y ys (rw (f, find_rank) at h) in (inr m, t)
  ]

  find_rank-none :
      (x y : ℤ) (ys : List ℤ) → find_rank test b x ys ≡ none → y ∈ ys → test (b y x) ≡ false
  unfolding find_rank
  find_rank-none x y [] h m = absurd m
  find_rank-none x y (z ∷ ys) h m = elim (Bool-cases (test (b z x))) [
    | inl t ↦ let e : some z ≡ none = rw (t, find_rank) at h in absurd (cc)
    | inr f ↦ elim m [ inl e ↦ rw e f | inr m' ↦ find_rank-none x y ys (rw (f, find_rank) at h) m' ]
  ]

  find_square-some :
      (x y : ℤ) (xs : List ℤ)
      → find_square test b xs ≡ some (x, y)
      → (x ∈ xs) × (y ∈ eight) × (test (b y x) ≡ true)
  unfolding find_square
  find_square-some x y [] h = absurd (cc)
  find_square-some x y (z ∷ xs) h = elim (Option-cases (find_rank test b z eight)) [
    | inr (y', found) ↦
        let e = some-injective (rw (found, find_square) at h) in
        let (m, t) = find_rank-some z y' eight found in
        let ex : x ≡ z = sym (ap (λ p. p.0) e) in
        let ey : y ≡ y' = sym (ap (λ p. p.1) e) in (inl ex, rw ey m, rw (ex, ey) t)
    | inl missing ↦
        let (m, my, t) = find_square-some x y xs (rw (missing, find_square) at h) in (inr m, my, t)
  ]

  find_square-none :
      (x y : ℤ) (xs : List ℤ)
      → find_square test b xs ≡ none
      → x ∈ xs
      → y ∈ eight
      → test (b y x) ≡ false
  unfolding find_square
  find_square-none x y [] h m n = absurd m
  find_square-none x y (z ∷ xs) h m n = elim (Option-cases (find_rank test b z eight)) [
    | inr (y', found) ↦ let e : some (z, y') ≡ none = rw (found, find_square) at h in absurd (cc)
    | inl missing ↦ elim m [
      | inl e ↦ rw e (find_rank-none z y eight missing n)
      | inr m' ↦ find_square-none x y xs (rw (missing, find_square) at h) m' n
    ]
  ]

-- The search finds the king of a team that has one.
pub find_king-SoleKing : (b : Board) (t : Team) (k : SoleKing b t) → find_king b t ≡ some (k.x, k.y)
unfolding find_king
find_king-SoleKing b t k = elim (Option-cases (find_king b t)) [
  | inl missing ↦
      let (mx, my) = in_board→eight k.x k.y k.inside in
      let none_here = find_square-none (is_king_of t) b k.x k.y eight missing mx my in
      let here = k.here in absurd (cc)
  | inr ((x, y), found) ↦
      let (mx, my, test) = find_square-some (is_king_of t) b x y eight found in
      let (ex, ey) = k.sole x y (eight→in_board x y mx my) test in rw (← ex, ← ey) found
]

king_stands : (t : Team) (s : Square) → is_king_of t s ≡ true → (s.team ≡ t) × (s.is_dead ≡ false)
king_stands t s h = ground arith

apart : (t : Team) → team_eq (other_team t) t ≡ false
apart white = refl
apart black = refl

pub other_other : (t : Team) → other_team (other_team t) ≡ t
other_other white = refl
other_other black = refl

attacked_by :
    (b : Board) (x y : ℤ) (t : Team) (i j : ℤ) (r : PieceRef)
    → stands_for t (b j i) ≡ true
    → (b j i).piece ≡ some r
    → attacked_from b x y t i j ≡ attacks b x y t i j (deref r)
unfolding attacked_from
attacked_by b x y t i j r own held = rw (own, attacked_from, held)

module _ (g : Game) (sx sy dx dy : ℤ) (p : Passes g sx sy dx dy) where
  -- A piece that may go to an enemy king's square gives check.
  pub king_target-check :
      (k : SoleKing g.board (other_team g.side_to_move))
      → is_king_of (other_team g.side_to_move) (g.board dy dx) ≡ true
      → is_in_check g (other_team g.side_to_move) ≡ true
  unfolding is_in_check is_square_attacked
  king_target-check k target =
      let us = g.side_to_move in
      let (ex, ey) = k.sole dx dy p.to_inside target in
      let (team, alive) = king_stands (other_team us) (g.board dy dx) target in
      let mine : (g.board sy sx).team ≡ us = stands_for-team us (g.board sy sx) p.own_piece in
      let (mx, my) = in_board→eight sx sy p.from_inside in
      let attack : attacked_from g.board dx dy us sx sy ≡ true =
        attacked_by g.board dx dy us sx sy p.moved p.own_piece p.held
        ∙ (rw mine at (
              sym (
                capture_iff_attack g sx sy dx dy p.moved p.from_inside p.to_inside
                  (rw (team, mine) (apart us)) alive))
            ∙ p.fits) in
      let on_file = any-of_mem (λ j. attacked_from g.board dx dy us sx j) sy eight my attack in
      let hit =
        any-of_mem (λ i. any (λ j. attacked_from g.board dx dy us i j) eight) sx eight mx on_file in
      rw (find_king-SoleKing g.board (other_team us) k, is_in_check, other_other us)
        (rw (ex, ey) at hit)
