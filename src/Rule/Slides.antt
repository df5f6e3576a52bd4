-- ===== src/Rule/Slides.antt =====
-- The sliding moves of `is_move_legal` in common/rule.c: it divides the displacement by the offset
-- and then looks at the squares between.
use multiplay_chess.Prelude.{
  ℕ, zero, suc, ◌+◌, ◌*◌, ◌-◌, ◌≤◌, ◌≡◌, refl, sym, ◌↔◌, inl, inr, true, ◌&&◌, Bool-cases, leb_ℤ,
  ltb_ℤ, ℤ, pos, negsuc, pos_part, neg_part, abs, ◌+ℤ◌, ◌-ℤ◌, div_ℤ, mod_ℤ, +ℤ_parts, -ℤ_parts,
  eq_of_parts, ◌∈◌, arith,
}
use multiplay_chess.Piece.{Offset, all_directions}
use multiplay_chess.Game.{Game, in_board}
use multiplay_chess.Rule.{way_clear, slide_along, distance, align}
use multiplay_chess.Rule.Rays.{Sees, hit, pass}

-- The coordinate after `n` more steps of `d`.
abbrev advance : ℕ → ℤ → ℤ → ℤ
advance zero d x = x
advance (suc n) d x = advance n d (x +ℤ d)

-- The offsets step by at most one.
advance_parts :
    (n : ℕ) (d x : ℤ)
    → pos_part (advance n d x) + neg_part x + n * neg_part d
      ≡ neg_part (advance n d x) + pos_part x + n * pos_part d
advance_parts zero d x = omega arith
advance_parts (suc n) d x = omega (arith, +ℤ_parts x d, advance_parts n d (x +ℤ d))

-- A coordinate that starts and ends on the board stays there in between.
between :
    (d x z : ℤ) (n : ℕ)
    → abs d ≤ 1
    → z ≡ advance n d (x +ℤ d)
    → (leb_ℤ (pos 0) x && ltb_ℤ x (pos 8)) ≡ true
    → (leb_ℤ (pos 0) z && ltb_ℤ z (pos 8)) ≡ true
    → (leb_ℤ (pos 0) (x +ℤ d) && ltb_ℤ (x +ℤ d) (pos 8)) ≡ true
between (pos zero) x z n h e i j =
    ground (arith, +ℤ_parts x (pos zero), advance_parts n (pos zero) (x +ℤ pos zero))
between (pos (suc zero)) x z n h e i j =
    ground (arith, +ℤ_parts x (pos 1), advance_parts n (pos 1) (x +ℤ pos 1))
between (pos (suc (suc k))) x z n h e i j = absurd (omega arith)
between (negsuc zero) x z n h e i j =
    ground (arith, +ℤ_parts x (negsuc 0), advance_parts n (negsuc 0) (x +ℤ negsuc 0))
between (negsuc (suc k)) x z n h e i j = absurd (omega arith)

all_directions-small : (o : Offset) → o ∈ all_directions → (abs o.x ≤ 1) × (abs o.y ≤ 1)
all_directions-small o m = ground arith

axes :
    (x y : ℤ)
    → in_board x y ≡ true
    → ((leb_ℤ (pos 0) x && ltb_ℤ x (pos 8)) ≡ true) × ((leb_ℤ (pos 0) y && ltb_ℤ y (pos 8)) ≡ true)
axes x y h = ground arith

of_axes :
    (x y : ℤ)
    → (leb_ℤ (pos 0) x && ltb_ℤ x (pos 8)) ≡ true
    → (leb_ℤ (pos 0) y && ltb_ℤ y (pos 8)) ≡ true
    → in_board x y ≡ true
of_axes x y h k = ground arith

next_inside :
    (o : Offset) (x y dx dy : ℤ) (n : ℕ)
    → o ∈ all_directions
    → in_board x y ≡ true
    → in_board dx dy ≡ true
    → dx ≡ advance n o.x (x +ℤ o.x)
    → dy ≡ advance n o.y (y +ℤ o.y)
    → in_board (x +ℤ o.x) (y +ℤ o.y) ≡ true
next_inside o x y dx dy n m i j ex ey =
    let (sx, sy) = all_directions-small o m in
    let (ix, iy) = axes x y i in
    let (jx, jy) = axes dx dy j in
    of_axes (x +ℤ o.x) (y +ℤ o.y) (between o.x x dx n sx ex ix jx) (between o.y y dy n sy ey iy jy)

div_ℤ-one : (r : ℤ) → div_ℤ r (pos 1) ≡ r
unfolding div_ℤ
div_ℤ-one r = ground arith

div_ℤ-minus_one : (r : ℤ) → div_ℤ r (negsuc 0) ≡ pos 0 -ℤ r
unfolding div_ℤ ◌-ℤ◌
div_ℤ-minus_one r = ground arith

mod_ℤ-one : (r : ℤ) → mod_ℤ r (pos 1) ≡ pos 0
unfolding mod_ℤ
mod_ℤ-one r = ground arith

mod_ℤ-minus_one : (r : ℤ) → mod_ℤ r (negsuc 0) ≡ pos 0
unfolding mod_ℤ
mod_ℤ-minus_one r = ground arith

module _ (g : Game) (sx sy dx dy : ℤ) (inside : in_board dx dy ≡ true) (o : Offset)
    (m : o ∈ all_directions) where
  Sees-of_way_clear :
      (n : ℕ) (x y : ℤ)
      → in_board x y ≡ true
      → dx ≡ advance n o.x x
      → dy ≡ advance n o.y y
      → way_clear g sx sy dx dy n o x y ≡ true
      → Sees g.board o dx dy x y
  unfolding way_clear
  Sees-of_way_clear zero x y i ex ey h = hit i (sym ex) (sym ey)
  Sees-of_way_clear (suc n) x y i ex ey h = elim (Bool-cases (g.board y x).is_dead) [
    | inl free ↦ pass i free (
        Sees-of_way_clear n (x +ℤ o.x) (y +ℤ o.y) (next_inside o x y dx dy n m i inside ex ey) ex ey
          (rw (free, way_clear) at h))
    | inr stop ↦ let h' = rw (stop, way_clear) at h in absurd (cc)
  ]

  -- What is seen is some number of steps away, with a clear way.
  way_clear-of_Sees :
      {x y : ℤ}
      → Sees g.board o dx dy x y
      → (n : ℕ) × (dx ≡ advance n o.x x)
        × (dy ≡ advance n o.y y)
        × (way_clear g sx sy dx dy n o x y ≡ true)
  unfolding way_clear
  way_clear-of_Sees (hit i ex ey) = (0, sym ex, sym ey, refl)
  way_clear-of_Sees {x} {y} (pass i free s) =
      let (n, ex, ey, clear) = way_clear-of_Sees s in (suc n, ex, ey, rw (free, way_clear) clear)

  aligned :
      (n : ℕ)
      → dx ≡ advance n o.x (sx +ℤ o.x)
      → dy ≡ advance n o.y (sy +ℤ o.y)
      → (align g sx sy dx dy o ≡ true) × (distance g sx sy dx dy o ≡ pos (suc n))
  aligned n ex ey = ground (
    arith,
    div_ℤ-one (dx -ℤ sx),
    div_ℤ-one (dy -ℤ sy),
    div_ℤ-minus_one (dx -ℤ sx),
    div_ℤ-minus_one (dy -ℤ sy),
    mod_ℤ-one (dx -ℤ sx),
    mod_ℤ-one (dy -ℤ sy),
    mod_ℤ-minus_one (dx -ℤ sx),
    mod_ℤ-minus_one (dy -ℤ sy),
    -ℤ_parts dx sx,
    -ℤ_parts dy sy,
    -ℤ_parts (pos 0) (dx -ℤ sx),
    -ℤ_parts (pos 0) (dy -ℤ sy),
    +ℤ_parts sx o.x,
    +ℤ_parts sy o.y,
    advance_parts n o.x (sx +ℤ o.x),
    advance_parts n o.y (sy +ℤ o.y),
  )

  -- An aligned displacement is a multiple of the offset.
  displacement :
      (n : ℕ)
      → align g sx sy dx dy o ≡ true
      → n ≡ abs (distance g sx sy dx dy o) - 1
      → (pos_part (dx -ℤ sx) + suc n * neg_part o.x ≡ neg_part (dx -ℤ sx) + suc n * pos_part o.x)
        × (pos_part (dy -ℤ sy) + suc n * neg_part o.y ≡ neg_part (dy -ℤ sy) + suc n * pos_part o.y)
  displacement n a e = ground (
    arith,
    div_ℤ-one (dx -ℤ sx),
    div_ℤ-one (dy -ℤ sy),
    div_ℤ-minus_one (dx -ℤ sx),
    div_ℤ-minus_one (dy -ℤ sy),
    -ℤ_parts (pos 0) (dx -ℤ sx),
    -ℤ_parts (pos 0) (dy -ℤ sy),
  )

  steps_of_aligned :
      (n : ℕ)
      → align g sx sy dx dy o ≡ true
      → n ≡ abs (distance g sx sy dx dy o) - 1
      → (dx ≡ advance n o.x (sx +ℤ o.x)) × (dy ≡ advance n o.y (sy +ℤ o.y))
  steps_of_aligned n a e =
      let (kx, ky) = displacement n a e in
      (
        eq_of_parts dx (advance n o.x (sx +ℤ o.x))
            (omega (arith, kx, -ℤ_parts dx sx, +ℤ_parts sx o.x, advance_parts n o.x (sx +ℤ o.x))),
        eq_of_parts dy (advance n o.y (sy +ℤ o.y))
            (omega (arith, ky, -ℤ_parts dy sy, +ℤ_parts sy o.y, advance_parts n o.y (sy +ℤ o.y))),
      )

  -- Between two squares of the board, `is_move_legal` lets a piece slide along an offset of the tables
  -- exactly if the piece sees the target along it.
  pub slide_along_iff :
      in_board sx sy ≡ true
      → (slide_along g sx sy dx dy o ≡ true) ↔ Sees g.board o dx dy (sx +ℤ o.x) (sy +ℤ o.y)
  unfolding slide_along
  slide_along_iff start = (
    λ h.
        let n = abs (distance g sx sy dx dy o) - 1 in
        let (ex, ey) = steps_of_aligned n (ground arith) refl in
        Sees-of_way_clear n (sx +ℤ o.x) (sy +ℤ o.y)
          (next_inside o sx sy dx dy n m start inside ex ey) ex ey (ground arith),
    λ s.
        let (n, ex, ey, clear) = way_clear-of_Sees s in
        let (a, d) = aligned n ex ey in let e : suc n - 1 ≡ n = omega arith in rw (a, d, e) clear,
  )
