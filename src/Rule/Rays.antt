-- ===== src/Rule/Rays.antt =====
-- The rays of `is_square_attacked` in common/rule.c: it walks along an offset until something
-- stands in the way.
use multiplay_chess.Prelude.{
  ℕ, zero, suc, ◌+◌, ◌-◌, ◌≤◌, ◌≡◌, ◌↔◌, inl, inr, true, ◌&&◌, Bool-cases, if◌then◌else◌, ℤ, pos,
  negsuc, pos_part, ◌+ℤ◌, ◌==ℤ◌, ==ℤ→≡, ==ℤ_refl, ◌∈◌, arith,
}
use multiplay_chess.Piece.{Offset, all_directions}
use multiplay_chess.Game.{Board, in_board}
use multiplay_chess.Rule.{ray, ray_fuel}

-- A piece sees (x, y) along the offset from (nx, ny) on: the way there is on the board, and nothing
-- stands on it before (x, y).
pub data Sees (b : Board) (o : Offset) (x y : ℤ) : ℤ → ℤ → Type 0 where
  hit : {nx ny : ℤ} → in_board nx ny ≡ true → nx ≡ x → ny ≡ y → Sees b o x y nx ny
  pass :
      {nx ny : ℤ}
      → in_board nx ny ≡ true
      → (b ny nx).is_dead ≡ true
      → Sees b o x y (nx +ℤ o.x) (ny +ℤ o.y)
      → Sees b o x y nx ny

Sees-inside : {b : Board} {o : Offset} {x y nx ny : ℤ} → Sees b o x y nx ny → in_board nx ny ≡ true
Sees-inside (hit i _ _) = i
Sees-inside (pass i _ _) = i

-- How many squares of the board lie ahead, this one included.
abbrev ahead : ℤ → ℤ → ℕ
ahead (pos _) n = 8 - pos_part n
ahead (negsuc _) n = pos_part n + 1

abbrev leaves : Offset → ℤ → ℤ → ℕ
leaves o nx ny = if o.x ==ℤ pos 0 then ahead o.y ny else ahead o.x nx

leaves-step :
    (o : Offset) (nx ny : ℤ)
    → o ∈ all_directions
    → in_board nx ny ≡ true
    → in_board (nx +ℤ o.x) (ny +ℤ o.y) ≡ true
    → leaves o (nx +ℤ o.x) (ny +ℤ o.y) + 1 ≤ leaves o nx ny
unfolding ◌+ℤ◌
leaves-step o nx ny m i i' = ground arith

leaves_bounds :
    (o : Offset) (nx ny : ℤ) → in_board nx ny ≡ true → (1 ≤ leaves o nx ny) × (leaves o nx ny ≤ 8)
leaves_bounds o nx ny i = ground arith

module _ (b : Board) (x y : ℤ) (o : Offset) where
  ray_sound : (fuel : ℕ) (nx ny : ℤ) → ray fuel b x y o nx ny ≡ true → Sees b o x y nx ny
  unfolding ray
  ray_sound zero nx ny h = absurd (cc)
  ray_sound (suc fuel) nx ny h = elim (Bool-cases (in_board nx ny)) [
    | inr off ↦ let h' = rw (off, ray) at h in absurd (cc)
    | inl on ↦ elim (Bool-cases ((nx ==ℤ x) && (ny ==ℤ y))) [
      | inl there ↦ hit on (==ℤ→≡ nx x (ground arith)) (==ℤ→≡ ny y (ground arith))
      | inr away ↦ elim (Bool-cases (b ny nx).is_dead) [
        | inl free ↦
            pass on free (ray_sound fuel (nx +ℤ o.x) (ny +ℤ o.y) (rw (on, away, free, ray) at h))
        | inr stop ↦ let h' = rw (on, away, stop, ray) at h in absurd (cc)
      ]
    ]
  ]

  ray_complete :
      (fuel : ℕ) {nx ny : ℤ}
      → o ∈ all_directions
      → Sees b o x y nx ny
      → leaves o nx ny ≤ fuel
      → ray fuel b x y o nx ny ≡ true
  unfolding ray
  ray_complete zero {nx} {ny} m s l = absurd (omega (arith, leaves_bounds o nx ny (Sees-inside s)))
  ray_complete (suc fuel) {nx} {ny} m (hit i ex ey) l =
      rw (i, ray) (rw (ex, ey) (ground (arith, ==ℤ_refl x, ==ℤ_refl y)))
  ray_complete (suc fuel) {nx} {ny} m (pass i free s) l =
      let rest = ray_complete fuel m s (omega (arith, leaves-step o nx ny m i (Sees-inside s))) in
      elim (Bool-cases ((nx ==ℤ x) && (ny ==ℤ y))) [
        | inl there ↦ rw (i, there, ray)
        | inr away ↦ rw (i, away, free, ray) rest
      ]

  -- For an offset of the tables, the loop of an attacker's ray, with the fuel given, answers true
  -- exactly if the target is seen along the offset.
  pub ray_iff :
      (nx ny : ℤ) → o ∈ all_directions → (ray ray_fuel b x y o nx ny ≡ true) ↔ Sees b o x y nx ny
  ray_iff nx ny m = (
    ray_sound ray_fuel nx ny,
    λ s. ray_complete ray_fuel m s (omega (arith, leaves_bounds o nx ny (Sees-inside s))),
  )
