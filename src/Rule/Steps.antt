-- ===== src/Rule/Steps.antt =====
-- The offsets of knights and kings in common/rule.c and common/piece.c, against the geometry of
-- their moves.
use multiplay_chess.Prelude.{
  ◌+◌, ◌≡◌, refl, ◌↔◌, ◌⊎◌, Bool, true, false, ◌&&◌, Bool-cases, ◌≤◌, ◌==◌, ℤ, pos, abs, ◌-ℤ◌,
  ◌==ℤ◌, ==ℤ→≡, ==ℤ_refl, List, [], ◌∷◌, ◌∈◌, inl, inr, any, any-witness, arith, some,
}
use multiplay_chess.Piece.{
  PieceType, knight, king, Team, white, black, Offset, ref, deref, kind_eq, all_directions,
  knight_jumps,
}
use multiplay_chess.Game.{Game}
use multiplay_chess.Rule.{step_ok, piece_ok, is_move_legal}
use multiplay_chess.Rule.Moves.{legal-Passes}

-- A displacement of one square and two squares.
abbrev pub IsJump : ℤ → ℤ → Type 0
IsJump rx ry = (abs rx ≡ 1) × (abs ry ≡ 2) ⊎ (abs rx ≡ 2) × (abs ry ≡ 1)

-- A displacement to one of the eight squares around.
abbrev pub IsBeside : ℤ → ℤ → Type 0
IsBeside rx ry = (abs rx ≤ 1) × (abs ry ≤ 1) × (1 ≤ abs rx + abs ry)

abbrev pub InTable : List Offset → ℤ → ℤ → Type 0
InTable os rx ry = (o : Offset) × (o ∈ os) × (o.x ≡ rx) × (o.y ≡ ry)

all_directions-IsBeside : (o : Offset) → o ∈ all_directions → IsBeside o.x o.y
all_directions-IsBeside o m = ground arith

knight_jumps-IsJump : (o : Offset) → o ∈ knight_jumps → IsJump o.x o.y
knight_jumps-IsJump o m = ground arith

listed : List Offset → ℤ → ℤ → Bool
listed os rx ry = any (λ o. (o.x ==ℤ rx) && (o.y ==ℤ ry)) os

InTable-of_listed : (os : List Offset) (rx ry : ℤ) → listed os rx ry ≡ true → InTable os rx ry
unfolding listed
InTable-of_listed os rx ry h =
    let (o, m, e) = any-witness (λ o. (o.x ==ℤ rx) && (o.y ==ℤ ry)) os h in
    (o, m, ==ℤ→≡ o.x rx (ground arith), ==ℤ→≡ o.y ry (ground arith))

knight_jumps_iff : (rx ry : ℤ) → InTable knight_jumps rx ry ↔ IsJump rx ry
unfolding listed
knight_jumps_iff rx ry = (
  λ (o, m, ex, ey). rw (← ex, ← ey) (knight_jumps-IsJump o m),
  λ h. InTable-of_listed knight_jumps rx ry (ground arith),
)

pub all_directions_iff : (rx ry : ℤ) → InTable all_directions rx ry ↔ IsBeside rx ry
unfolding listed
all_directions_iff rx ry = (
  λ (o, m, ex, ey). rw (← ex, ← ey) (all_directions-IsBeside o m),
  λ h. InTable-of_listed all_directions rx ry (ground arith),
)

module _ (g : Game) (sx sy dx dy : ℤ) where
  pub step_ok-InTable :
      (k : PieceType) (os : List Offset)
      → step_ok g sx sy dx dy k os ≡ true
      → InTable os (dx -ℤ sx) (dy -ℤ sy)
  unfolding step_ok
  step_ok-InTable k [] h = absurd (cc)
  step_ok-InTable k (o ∷ os) h = elim (Bool-cases ((o.x ==ℤ (dx -ℤ sx)) && (o.y ==ℤ (dy -ℤ sy)))) [
    | inl fits ↦
        (o, inl refl, ==ℤ→≡ o.x (dx -ℤ sx) (ground arith), ==ℤ→≡ o.y (dy -ℤ sy) (ground arith))
    | inr misses ↦
        let (o', m, ex, ey) = step_ok-InTable k os (rw (misses, step_ok) at h) in
        (o', inr m, ex, ey)
  ]

  -- No offset is a castling displacement, so the first that fits decides for the move.
  pub step_ok-of_InTable :
      (k : PieceType) (os : List Offset)
      → (kind_eq k king && (abs (dx -ℤ sx) == 2) && ((dy -ℤ sy) ==ℤ pos 0)) ≡ false
      → InTable os (dx -ℤ sx) (dy -ℤ sy)
      → step_ok g sx sy dx dy k os ≡ true
  unfolding step_ok
  step_ok-of_InTable k [] plain (o, m, ex, ey) = absurd m
  step_ok-of_InTable k (o ∷ os) plain (o', m, ex, ey) =
      elim (Bool-cases ((o.x ==ℤ (dx -ℤ sx)) && (o.y ==ℤ (dy -ℤ sy)))) [
        | inl fits ↦ rw (fits, step_ok) (rw plain)
        | inr misses ↦
            rw (misses, step_ok)
              (elim m [
                | inl e ↦
                    let ex' : o.x ≡ dx -ℤ sx = rw (← e) ex in
                    let ey' : o.y ≡ dy -ℤ sy = rw (← e) ey in
                    absurd (ground (arith, ==ℤ_refl (dx -ℤ sx), ==ℤ_refl (dy -ℤ sy)))
                | inr m' ↦ step_ok-of_InTable k os plain (o', m', ex, ey)
              ])
      ]

  -- A knight goes exactly where a knight's jump leads: one square along one axis and two along the
  -- other, over whatever stands between.
  pub piece_ok-knight :
      (t : Team)
      → (piece_ok g sx sy dx dy (deref (ref t knight)) ≡ true) ↔ IsJump (dx -ℤ sx) (dy -ℤ sy)
  unfolding piece_ok deref
  piece_ok-knight white = (
    λ h. (knight_jumps_iff _ _).0 (step_ok-InTable knight knight_jumps h),
    λ j. step_ok-of_InTable knight knight_jumps refl ((knight_jumps_iff _ _).1 j),
  )
  piece_ok-knight black = (
    λ h. (knight_jumps_iff _ _).0 (step_ok-InTable knight knight_jumps h),
    λ j. step_ok-of_InTable knight knight_jumps refl ((knight_jumps_iff _ _).1 j),
  )

  -- A king goes exactly to the squares beside it: its offsets hold no castling move, so the
  -- castling branch of `is_move_legal` is never taken.
  pub piece_ok-king :
      (t : Team)
      → (piece_ok g sx sy dx dy (deref (ref t king)) ≡ true) ↔ IsBeside (dx -ℤ sx) (dy -ℤ sy)
  unfolding piece_ok deref
  piece_ok-king white = (
    λ h. (all_directions_iff _ _).0 (step_ok-InTable king all_directions h),
    λ j. step_ok-of_InTable king all_directions (ground arith) ((all_directions_iff _ _).1 j),
  )
  piece_ok-king black = (
    λ h. (all_directions_iff _ _).0 (step_ok-InTable king all_directions h),
    λ j. step_ok-of_InTable king all_directions (ground arith) ((all_directions_iff _ _).1 j),
  )

  -- No legal move castles: a king never moves two files, whatever castling rights the game holds.
  pub legal_king_step :
      (t : Team)
      → (g.board sy sx).piece ≡ some (ref t king)
      → is_move_legal g sx sy dx dy ≡ true
      → IsBeside (dx -ℤ sx) (dy -ℤ sy)
  legal_king_step t e h =
      let p = (legal-Passes g sx sy dx dy h).0 in
      let same : p.moved ≡ ref t king = cc (p.held) in (piece_ok-king t).0 (rw same at p.fits)
