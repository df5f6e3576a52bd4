-- ===== src/Rule/Ending.antt =====
-- `is_checkmate` and `is_stalemate` of common/rule.c against their meaning.
use multiplay_chess.Prelude.{
  ◌≡◌, ◌↔◌, true, false, Bool-cases, ℤ, any-of_mem, any-witness, any, inl, inr, arith,
}
use multiplay_chess.Game.{Game}
use multiplay_chess.Rule.{
  eight, stands_for, is_in_check, is_move_legal, has_move_from, has_move, is_checkmate,
  is_stalemate,
}
use multiplay_chess.Rule.Moves.{legal-Passes, in_board→eight}

-- A legal move of the side to move, between any coordinates.
abbrev pub LegalMove : Game → Type 0
LegalMove g = (sx : ℤ) × (sy : ℤ) × (dx : ℤ) × (dy : ℤ) × (is_move_legal g sx sy dx dy ≡ true)

module _ (g : Game) where
  has_move_from-of_legal :
      (sx sy dx dy : ℤ) → is_move_legal g sx sy dx dy ≡ true → has_move_from g sx sy ≡ true
  unfolding has_move_from
  has_move_from-of_legal sx sy dx dy h =
      let p = (legal-Passes g sx sy dx dy h).0 in
      let (mx, my) = in_board→eight dx dy p.to_inside in
      rw (p.own_piece, has_move_from)
        (any-of_mem (λ x. any (λ y. is_move_legal g sx sy x y) eight) dx eight mx
          (any-of_mem (λ y. is_move_legal g sx sy dx y) dy eight my h))

  has_move-of_legal : LegalMove g → has_move g ≡ true
  unfolding has_move
  has_move-of_legal (sx, sy, dx, dy, h) =
      let p = (legal-Passes g sx sy dx dy h).0 in
      let (mx, my) = in_board→eight sx sy p.from_inside in
      any-of_mem (λ x. any (λ y. has_move_from g x y) eight) sx eight mx
        (any-of_mem (λ y. has_move_from g sx y) sy eight my (has_move_from-of_legal sx sy dx dy h))

  legal-of_has_move_from : (sx sy : ℤ) → has_move_from g sx sy ≡ true → LegalMove g
  unfolding has_move_from
  legal-of_has_move_from sx sy h = elim (Bool-cases (stands_for g.side_to_move (g.board sy sx))) [
    | inl own ↦
        let (dx, _, found) =
          any-witness (λ x. any (λ y. is_move_legal g sx sy x y) eight) eight
            (rw (own, has_move_from) at h) in
        let (dy, _, legal) = any-witness (λ y. is_move_legal g sx sy dx y) eight found in
        (sx, sy, dx, dy, legal)
    | inr other ↦ let h' = rw (other, has_move_from) at h in absurd (cc)
  ]

  legal-of_has_move : has_move g ≡ true → LegalMove g
  unfolding has_move
  legal-of_has_move h =
      let (sx, _, found) = any-witness (λ x. any (λ y. has_move_from g x y) eight) eight h in
      let (sy, _, from) = any-witness (λ y. has_move_from g sx y) eight found in
      legal-of_has_move_from sx sy from

  no_move : has_move g ≡ false → (sx sy dx dy : ℤ) → is_move_legal g sx sy dx dy ≡ false
  no_move none_found sx sy dx dy = elim (Bool-cases (is_move_legal g sx sy dx dy)) [
    | inl legal ↦ let found = has_move-of_legal (sx, sy, dx, dy, legal) in absurd (cc)
    | inr illegal ↦ illegal
  ]

  no_move_found : ((sx sy dx dy : ℤ) → is_move_legal g sx sy dx dy ≡ false) → has_move g ≡ false
  no_move_found all = elim (Bool-cases (has_move g)) [
    | inl found ↦
        let (sx, sy, dx, dy, legal) = legal-of_has_move found in
        let illegal = all sx sy dx dy in absurd (cc)
    | inr nothing ↦ nothing
  ]

  -- `is_checkmate` answers true exactly if the side to move is in check and no move between any
  -- two coordinates, on the board or off it, is legal.
  pub is_checkmate_iff :
      (is_checkmate g ≡ true)
      ↔ (is_in_check g g.side_to_move ≡ true)
        × ((sx sy dx dy : ℤ) → is_move_legal g sx sy dx dy ≡ false)
  unfolding is_checkmate
  is_checkmate_iff = (
    λ h. (ground arith, no_move (ground arith)),
    λ (c, all). rw (c, is_checkmate, no_move_found all),
  )

  -- `is_stalemate` answers true exactly if the side to move is not in check and no move between
  -- any two coordinates, on the board or off it, is legal.
  pub is_stalemate_iff :
      (is_stalemate g ≡ true)
      ↔ (is_in_check g g.side_to_move ≡ false)
        × ((sx sy dx dy : ℤ) → is_move_legal g sx sy dx dy ≡ false)
  unfolding is_stalemate
  is_stalemate_iff = (
    λ h. (ground arith, no_move (ground arith)),
    λ (c, all). rw (c, is_stalemate, no_move_found all),
  )
