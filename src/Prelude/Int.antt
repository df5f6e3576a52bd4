-- ===== src/Prelude/Int.antt =====
-- Signed integers over the native numbers, and the `int` operations of C on them.
use Prim.Native.Nat.{ℕ, suc, ◌+◌, ◌-◌, ◌/◌, ◌%◌, ◌≤◌, ◌<◌}
use mathlib.Core.Path.{◌≡◌}
use mathlib.Core.Logic.{◌≢◌}
use mathlib.Core.Bool.{Bool, true, false}
use native.Mathlib.Omega.{arith}
use multiplay_chess.Prelude.Tests.{ltb, leb, ◌==◌, if◌then◌else◌}

-- `negsuc n` is -(n + 1).
pub data ℤ : Type 0 where
  pos : ℕ → ℤ
  negsuc : ℕ → ℤ

abbrev pub pos_part : ℤ → ℕ
pos_part (pos n) = n
pos_part (negsuc n) = 0

abbrev pub neg_part : ℤ → ℕ
neg_part (pos n) = 0
neg_part (negsuc n) = suc n

-- -1, the "none" of coordinates and descriptors.
abbrev pub minus_one : ℤ
minus_one = negsuc 0

-- a - b, as an integer.
abbrev pub sub_ℕ : ℕ → ℕ → ℤ
sub_ℕ a b = if leb b a then pos (a - b) else negsuc (b - a - 1)

infixl 65 ◌+ℤ◌ ◌-ℤ◌
infix 50 ◌≤ℤ◌ ◌<ℤ◌ ◌==ℤ◌
unfoldable pub ◌+ℤ◌ : ℤ → ℤ → ℤ
a +ℤ b = sub_ℕ (pos_part a + pos_part b) (neg_part a + neg_part b)

unfoldable pub ◌-ℤ◌ : ℤ → ℤ → ℤ
a -ℤ b = sub_ℕ (pos_part a + neg_part b) (neg_part a + pos_part b)

-- |a|
abbrev pub abs : ℤ → ℕ
abs (pos n) = n
abs (negsuc n) = suc n

-- n with the sign of s * t, as division truncated towards zero gives it.
abbrev signed : ℤ → ℤ → ℕ → ℤ
signed (pos _) (pos _) n = pos n
signed (negsuc _) (negsuc _) n = pos n
signed _ _ n = sub_ℕ 0 n

-- `a / b` and `a % b` of C. The code divides by no zero; here that gives 0 and a.
unfoldable pub div_ℤ : ℤ → ℤ → ℤ
div_ℤ a b = signed a b (abs a / abs b)

unfoldable pub mod_ℤ : ℤ → ℤ → ℤ
mod_ℤ (pos n) b = pos (n % abs b)
mod_ℤ (negsuc n) b = sub_ℕ 0 (suc n % abs b)

abbrev pub ◌≤ℤ◌ : ℤ → ℤ → Type 0
a ≤ℤ b = pos_part a + neg_part b ≤ pos_part b + neg_part a

abbrev pub ◌<ℤ◌ : ℤ → ℤ → Type 0
a <ℤ b = pos_part a + neg_part b < pos_part b + neg_part a

abbrev pub leb_ℤ : ℤ → ℤ → Bool
leb_ℤ a b = leb (pos_part a + neg_part b) (pos_part b + neg_part a)

abbrev pub ltb_ℤ : ℤ → ℤ → Bool
ltb_ℤ a b = ltb (pos_part a + neg_part b) (pos_part b + neg_part a)

abbrev pub ◌==ℤ◌ : ℤ → ℤ → Bool
pos a ==ℤ pos b = a == b
negsuc a ==ℤ negsuc b = a == b
_ ==ℤ _ = false

pub ==ℤ_refl : (a : ℤ) → (a ==ℤ a) ≡ true
==ℤ_refl a = ground arith

pub ==ℤ→≡ : (a b : ℤ) → (a ==ℤ b) ≡ true → a ≡ b
==ℤ→≡ a b h = ground arith

pub ==ℤ→≢ : (a b : ℤ) → (a ==ℤ b) ≡ false → a ≢ b
==ℤ→≢ a b h = ground arith

-- The difference of the parts fixes the integer.
pub +ℤ_parts :
    (a b : ℤ)
    → pos_part (a +ℤ b) + neg_part a + neg_part b ≡ neg_part (a +ℤ b) + pos_part a + pos_part b
unfolding ◌+ℤ◌
+ℤ_parts a b = ground arith

pub -ℤ_parts :
    (a b : ℤ)
    → pos_part (a -ℤ b) + neg_part a + pos_part b ≡ neg_part (a -ℤ b) + pos_part a + neg_part b
unfolding ◌-ℤ◌
-ℤ_parts a b = ground arith

pub eq_of_parts : (a b : ℤ) → pos_part a + neg_part b ≡ pos_part b + neg_part a → a ≡ b
eq_of_parts a b h = ground arith

pub ruleset int_laws = (arith, +ℤ_parts, -ℤ_parts, eq_of_parts)

-- The conversion to `int32_t`: the low 32 bits, read in two's complement.
unfoldable pub to_int32 : ℤ → ℤ
to_int32 (pos n) =
    sub_ℕ (n % 4294967296) (if ltb (n % 4294967296) 2147483648 then 0 else 4294967296)
to_int32 (negsuc n) =
    let u = 4294967295 - n % 4294967296 in sub_ℕ u (if ltb u 2147483648 then 0 else 4294967296)

pub to_int32_small : (z : ℤ) → negsuc 2147483647 ≤ℤ z → z ≤ℤ pos 2147483647 → to_int32 z ≡ z
unfolding to_int32
to_int32_small (pos n) l h = ground arith
to_int32_small (negsuc n) l h = ground arith

pub +ℤ_one : (n : ℕ) → pos n +ℤ pos 1 ≡ pos (suc n)
+ℤ_one n = eq_of_parts (pos n +ℤ pos 1) (pos (suc n)) (omega (arith, +ℤ_parts (pos n) (pos 1)))

pub -ℤ_one : (n : ℕ) → pos (suc n) -ℤ pos 1 ≡ pos n
-ℤ_one n =
    eq_of_parts (pos (suc n) -ℤ pos 1) (pos n) (omega (arith, -ℤ_parts (pos (suc n)) (pos 1)))
