-- ===== src/Rule/Attack.antt =====
-- Moves against attacks in common/rule.c. `is_move_legal` and `is_square_attacked` compute the
-- reach of a piece by different code.
use multiplay_chess.Prelude.{
  ◌≡◌, refl, sym, ◌∙◌, ◌≢◌, Bool, true, false, ◌&&◌, ◌||◌, Bool-ext, ℤ, pos, abs, ◌+ℤ◌, ◌-ℤ◌, ◌==ℤ◌,
  ==ℤ→≡, ==ℤ_refl, List, ◌∈◌, any, any-ext, any-of_mem, any-witness, arith, ◌==◌,
}
use multiplay_chess.Piece.{
  PieceType, pawn, knight, bishop, rook, queen, king, Team, white, black, Offset, PieceRef, ref,
  deref, kind_eq, team_eq, all_directions, straight_directions, diagonal_directions, knight_jumps,
}
use multiplay_chess.Game.{Game, in_board}
use multiplay_chess.Rule.{
  ray, ray_fuel, attacks, pawn_ok, step_ok, slide_along, slide_ok, piece_ok, forward,
}
use multiplay_chess.Rule.Steps.{
  InTable, step_ok-InTable, step_ok-of_InTable, all_directions_iff, IsBeside,
}
use multiplay_chess.Rule.Rays.{ray_iff}
use multiplay_chess.Rule.Slides.{slide_along_iff}

straight-mem : (o : Offset) → o ∈ straight_directions → o ∈ all_directions
straight-mem o m = ground arith

diagonal-mem : (o : Offset) → o ∈ diagonal_directions → o ∈ all_directions
diagonal-mem o m = ground arith

-- One axis of a step: the displacement is the offset exactly if the offset leads to the target.
axis : (d s t : ℤ) → (d ==ℤ (t -ℤ s)) ≡ ((s +ℤ d) ==ℤ t)
unfolding ◌+ℤ◌ ◌-ℤ◌
axis d s t = ground arith

rank_axis : (d s t : ℤ) → ((t -ℤ s) ==ℤ d) ≡ ((s +ℤ d) ==ℤ t)
unfolding ◌+ℤ◌ ◌-ℤ◌
rank_axis d s t = ground arith

beside_axis : (s t : ℤ) → (abs (t -ℤ s) == 1) ≡ ((s -ℤ pos 1 ==ℤ t) || (s +ℤ pos 1 ==ℤ t))
unfolding ◌+ℤ◌ ◌-ℤ◌
beside_axis s t = ground arith

module _ (g : Game) (sx sy dx dy : ℤ) where
  abbrev lands : Offset → Bool
  lands o = (sx +ℤ o.x ==ℤ dx) && (sy +ℤ o.y ==ℤ dy)

  lands-displaces : (o : Offset) → lands o ≡ ((o.x ==ℤ (dx -ℤ sx)) && (o.y ==ℤ (dy -ℤ sy)))
  lands-displaces o = rw (axis o.x sx dx, axis o.y sy dy)

  InTable-lands : (os : List Offset) → InTable os (dx -ℤ sx) (dy -ℤ sy) → any lands os ≡ true
  InTable-lands os (o, m, ex, ey) =
      any-of_mem lands o os m
        (lands-displaces o ∙ rw (ex, ey) (rw (==ℤ_refl (dx -ℤ sx), ==ℤ_refl (dy -ℤ sy))))

  lands-InTable : (os : List Offset) → any lands os ≡ true → InTable os (dx -ℤ sx) (dy -ℤ sy)
  lands-InTable os h =
      let (o, m, e) = any-witness lands os h in
      let e' = sym (lands-displaces o) ∙ e in
      (o, m, ==ℤ→≡ o.x (dx -ℤ sx) (ground arith), ==ℤ→≡ o.y (dy -ℤ sy) (ground arith))

  steps_agree :
      (k : PieceType) (os : List Offset)
      → (InTable os (dx -ℤ sx) (dy -ℤ sy)
          → (kind_eq k king && (abs (dx -ℤ sx) == 2) && ((dy -ℤ sy) ==ℤ pos 0)) ≡ false)
      → step_ok g sx sy dx dy k os ≡ any lands os
  steps_agree k os plain =
      Bool-ext (step_ok g sx sy dx dy k os) (any lands os)
        (λ h. InTable-lands os (step_ok-InTable g sx sy dx dy k os h))
        (λ h. let t = lands-InTable os h in step_ok-of_InTable g sx sy dx dy k os (plain t) t)

  slides_agree :
      (os : List Offset)
      → in_board sx sy ≡ true
      → in_board dx dy ≡ true
      → ((o : Offset) → o ∈ os → o ∈ all_directions)
      → slide_ok g sx sy dx dy os
        ≡ any (λ o. ray ray_fuel g.board dx dy o (sx +ℤ o.x) (sy +ℤ o.y)) os
  unfolding slide_ok
  slides_agree os i j sub = any-ext (slide_along g sx sy dx dy) _ os λ o m.
      let a = slide_along_iff g sx sy dx dy j o (sub o m) i in
      let r = ray_iff g.board dx dy o (sx +ℤ o.x) (sy +ℤ o.y) (sub o m) in
      Bool-ext _ _ (λ h. r.1 (a.0 h)) (λ h. a.1 (r.0 h))

  beside_plain :
      IsBeside (dx -ℤ sx) (dy -ℤ sy)
      → (kind_eq king king && (abs (dx -ℤ sx) == 2) && ((dy -ℤ sy) ==ℤ pos 0)) ≡ false
  beside_plain h = ground arith

  -- Between squares of the board, a piece other than a pawn may go exactly where it attacks.
  pub piece_ok-attacks :
      (t by_team : Team) (k : PieceType)
      → k ≢ pawn
      → in_board sx sy ≡ true
      → in_board dx dy ≡ true
      → piece_ok g sx sy dx dy (deref (ref t k))
        ≡ attacks g.board dx dy by_team sx sy (deref (ref t k))
  unfolding piece_ok attacks deref
  piece_ok-attacks t by_team pawn other i j = absurd (other refl)
  piece_ok-attacks white by_team knight other i j = steps_agree knight knight_jumps (λ _. refl)
  piece_ok-attacks black by_team knight other i j = steps_agree knight knight_jumps (λ _. refl)
  piece_ok-attacks white by_team king other i j =
      steps_agree king all_directions (λ t. beside_plain ((all_directions_iff _ _).0 t))
  piece_ok-attacks black by_team king other i j =
      steps_agree king all_directions (λ t. beside_plain ((all_directions_iff _ _).0 t))
  piece_ok-attacks white by_team bishop other i j =
      slides_agree diagonal_directions i j diagonal-mem
  piece_ok-attacks black by_team bishop other i j =
      slides_agree diagonal_directions i j diagonal-mem
  piece_ok-attacks white by_team rook other i j = slides_agree straight_directions i j straight-mem
  piece_ok-attacks black by_team rook other i j = slides_agree straight_directions i j straight-mem
  piece_ok-attacks white by_team queen other i j = slides_agree all_directions i j (λ o m. m)
  piece_ok-attacks black by_team queen other i j = slides_agree all_directions i j (λ o m. m)

  -- A pawn goes to an enemy's square exactly if it attacks it.
  pawn_captures :
      team_eq (g.board dy dx).team (g.board sy sx).team ≡ false
      → (g.board dy dx).is_dead ≡ false
      → pawn_ok g sx sy dx dy ≡ (
          (sy +ℤ forward (g.board sy sx).team ==ℤ dy)
          && ((sx -ℤ pos 1 ==ℤ dx) || (sx +ℤ pos 1 ==ℤ dx)))
  unfolding pawn_ok
  pawn_captures enemy alive =
      ground (arith, rank_axis (forward (g.board sy sx).team) sy dy, beside_axis sx dx)

  pub capture_iff_attack :
      (r : PieceRef)
      → in_board sx sy ≡ true
      → in_board dx dy ≡ true
      → team_eq (g.board dy dx).team (g.board sy sx).team ≡ false
      → (g.board dy dx).is_dead ≡ false
      → piece_ok g sx sy dx dy (deref r)
        ≡ attacks g.board dx dy (g.board sy sx).team sx sy (deref r)
  capture_iff_attack (ref white pawn) i j e a = unfold piece_ok attacks deref in pawn_captures e a
  capture_iff_attack (ref black pawn) i j e a = unfold piece_ok attacks deref in pawn_captures e a
  capture_iff_attack (ref t knight) i j e a = piece_ok-attacks t _ knight (λ e. cc) i j
  capture_iff_attack (ref t bishop) i j e a = piece_ok-attacks t _ bishop (λ e. cc) i j
  capture_iff_attack (ref t rook) i j e a = piece_ok-attacks t _ rook (λ e. cc) i j
  capture_iff_attack (ref t queen) i j e a = piece_ok-attacks t _ queen (λ e. cc) i j
  capture_iff_attack (ref t king) i j e a = piece_ok-attacks t _ king (λ e. cc) i j
