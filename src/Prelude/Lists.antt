-- ===== src/Prelude/Lists.antt =====
-- Lists measured and indexed by native numbers, and loops over them that stop early.
use Prim.Native.Nat.{ℕ, zero, suc, ◌+◌, ◌-◌, ◌≤◌}
use mathlib.Core.Path.{◌≡◌, refl, sym, ap, ◌∙◌}
use mathlib.Core.Bool.{Bool, true, false}
use mathlib.Core.Logic.{◌⊎◌, inl, inr}
use mathlib.Core.List.{List, [], ◌∷◌, ◌++◌}
use mathlib.Core.Option.{Option, none, some}
use native.Mathlib.Omega.{arith}
use multiplay_chess.Prelude.Tests.{Bool-cases, if◌then◌else◌}

module _ {ℓ} {A : Type ℓ} where
  abbrev pub length : List A → ℕ
  length [] = 0
  length (x ∷ xs) = suc (length xs)

  abbrev pub get_elem? : List A → ℕ → Option A
  get_elem? [] i = none
  get_elem? (x ∷ xs) zero = some x
  get_elem? (x ∷ xs) (suc i) = get_elem? xs i

  -- A write out of bounds changes nothing.
  abbrev pub set : List A → ℕ → A → List A
  set [] i v = []
  set (x ∷ xs) zero v = v ∷ xs
  set (x ∷ xs) (suc i) v = x ∷ set xs i v

  abbrev pub take : ℕ → List A → List A
  take zero xs = []
  take (suc n) [] = []
  take (suc n) (x ∷ xs) = x ∷ take n xs

  abbrev pub drop : ℕ → List A → List A
  drop zero xs = xs
  drop (suc n) [] = []
  drop (suc n) (x ∷ xs) = drop n xs

  abbrev pub replicate : ℕ → A → List A
  replicate zero a = []
  replicate (suc n) a = a ∷ replicate n a

  pub length-set : (xs : List A) (i : ℕ) (v : A) → length (set xs i v) ≡ length xs
  length-set [] i v = refl
  length-set (x ∷ xs) zero v = refl
  length-set (x ∷ xs) (suc i) v = ap suc (length-set xs i v)

  -- `for (...) if (test x) return true; return false;`
  abbrev pub any : (A → Bool) → List A → Bool
  any test [] = false
  any test (x ∷ xs) = elim (test x) [ true ↦ true | false ↦ any test xs ]

-- Membership by recursion, which computes to a sum.
infix 50 ◌∈◌
abbrev pub ◌∈◌ : {A : Type 0} → A → List A → Type 0
a ∈ [] = ⊥
a ∈ (x ∷ xs) = (a ≡ x) ⊎ (a ∈ xs)

-- A loop that stops at the first hit answers whether there is one.
pub any-of_mem :
    {A : Type 0} (test : A → Bool) (a : A) (xs : List A)
    → a ∈ xs
    → test a ≡ true
    → any test xs ≡ true
any-of_mem test a [] m h = absurd m
any-of_mem test a (x ∷ xs) (inl e) h = let h' : test x ≡ true = rw (← e) h in rw (h', any)
any-of_mem test a (x ∷ xs) (inr m) h = elim (Bool-cases (test x)) [
  | inl t ↦ rw (t, any)
  | inr f ↦ rw (f, any) (any-of_mem test a xs m h)
]

pub any-witness :
    {A : Type 0} (test : A → Bool) (xs : List A)
    → any test xs ≡ true
    → (a : A) × (a ∈ xs) × (test a ≡ true)
any-witness test [] h = cc
any-witness test (x ∷ xs) h = elim (Bool-cases (test x)) [
  | inl t ↦ (x, inl refl, t)
  | inr f ↦ let (a, m, t) = any-witness test xs (rw (f, any) at h) in (a, inr m, t)
]

pub any-false :
    {A : Type 0} (test : A → Bool) (xs : List A)
    → ((a : A) → a ∈ xs → test a ≡ false)
    → any test xs ≡ false
any-false test [] h = refl
any-false test (x ∷ xs) h = rw (h x (inl refl), any) (any-false test xs (λ a m. h a (inr m)))

pub any-false_mem :
    {A : Type 0} (test : A → Bool) (a : A) (xs : List A)
    → a ∈ xs
    → any test xs ≡ false
    → test a ≡ false
any-false_mem test a xs m h = elim (Bool-cases (test a)) [
  | inl t ↦ let hit : any test xs ≡ true = any-of_mem test a xs m t in cc
  | inr f ↦ f
]

pub any-ext :
    {A : Type 0} (f g : A → Bool) (xs : List A)
    → ((a : A) → a ∈ xs → f a ≡ g a)
    → any f xs ≡ any g xs
any-ext f g [] h = refl
any-ext f g (x ∷ xs) h =
    let rest = any-ext f g xs (λ a m. h a (inr m)) in
    elim (Bool-cases (g x)) [
      | inl t ↦ let t' : f x ≡ true = h x (inl refl) ∙ t in rw (t, t', any)
      | inr n ↦ let n' : f x ≡ false = h x (inl refl) ∙ n in rw (n, n', any) rest
    ]

pub some-injective {ℓ} : {A : Type ℓ} {a b : A} → some a ≡ some b → a ≡ b
some-injective {a = a} h = ap (λ o. elim o [ none ↦ a | some x ↦ x ]) h

module _ {ℓ} {A : Type ℓ} where
  abbrev pub count : (A → Bool) → List A → ℕ
  count test [] = 0
  count test (x ∷ xs) = (if test x then 1 else 0) + count test xs

  -- A write moves the count by what leaves and what comes.
  pub count-set :
      (test : A → Bool) (xs : List A) (i : ℕ) (a b : A)
      → get_elem? xs i ≡ some a
      → count test (set xs i b) + (if test a then 1 else 0)
        ≡ count test xs + (if test b then 1 else 0)
  count-set test [] i a b h = absurd (cc)
  count-set test (x ∷ xs) zero a b h = ground arith
  count-set test (x ∷ xs) (suc i) a b h = omega (arith, count-set test xs i a b h)

  pub get_elem?-set_self :
      (xs : List A) (i : ℕ) {a : A} (b : A)
      → get_elem? xs i ≡ some a
      → get_elem? (set xs i b) i ≡ some b
  get_elem?-set_self [] i b h = absurd (cc)
  get_elem?-set_self (x ∷ xs) zero b h = refl
  get_elem?-set_self (x ∷ xs) (suc i) b h = get_elem?-set_self xs i b h

  -- After a write, a place holds what was written or what it held before.
  pub get_elem?-set :
      (xs : List A) (i : ℕ) (b : A) (k : ℕ) {a : A}
      → get_elem? (set xs i b) k ≡ some a
      → (a ≡ b) ⊎ (get_elem? xs k ≡ some a)
  get_elem?-set [] i b k h = inr h
  get_elem?-set (x ∷ xs) zero b zero h = inl (sym (some-injective h))
  get_elem?-set (x ∷ xs) zero b (suc k) h = inr h
  get_elem?-set (x ∷ xs) (suc i) b zero h = inr h
  get_elem?-set (x ∷ xs) (suc i) b (suc k) h = get_elem?-set xs i b k h

suc_minus : (n m : ℕ) → n - m ≡ suc n - suc m
suc_minus n m = omega arith

module _ {ℓ} {A : Type ℓ} where
  pub ++_nil : (xs : List A) → xs ++ [] ≡ xs
  ++_nil [] = refl
  ++_nil (x ∷ xs) = ap (λ r. x ∷ r) (++_nil xs)

  pub ++_assoc : (xs ys zs : List A) → (xs ++ ys) ++ zs ≡ xs ++ (ys ++ zs)
  ++_assoc [] ys zs = refl
  ++_assoc (x ∷ xs) ys zs = ap (λ r. x ∷ r) (++_assoc xs ys zs)

  pub length-++ : (xs ys : List A) → length (xs ++ ys) ≡ length xs + length ys
  length-++ [] ys = omega arith
  length-++ (x ∷ xs) ys = omega (arith, length-++ xs ys)

  pub take_all : (xs : List A) → take (length xs) xs ≡ xs
  take_all [] = refl
  take_all (x ∷ xs) = ap (λ r. x ∷ r) (take_all xs)

  pub take-drop : (n : ℕ) (xs : List A) → take n xs ++ drop n xs ≡ xs
  take-drop zero xs = refl
  take-drop (suc n) [] = refl
  take-drop (suc n) (x ∷ xs) = ap (λ r. x ∷ r) (take-drop n xs)

  pub length-drop : (n : ℕ) (xs : List A) → length (take n xs) + length (drop n xs) ≡ length xs
  length-drop n xs = sym (length-++ (take n xs) (drop n xs)) ∙ ap length (take-drop n xs)

  -- A cut inside the first list, and one behind it.
  pub take_inside : (n : ℕ) (xs ys : List A) → n ≤ length xs → take n (xs ++ ys) ≡ take n xs
  take_inside zero xs ys h = refl
  take_inside (suc n) [] ys h = absurd (omega arith)
  take_inside (suc n) (x ∷ xs) ys h = ap (λ r. x ∷ r) (take_inside n xs ys (omega arith))

  pub drop_inside : (n : ℕ) (xs ys : List A) → n ≤ length xs → drop n (xs ++ ys) ≡ drop n xs ++ ys
  drop_inside zero xs ys h = refl
  drop_inside (suc n) [] ys h = absurd (omega arith)
  drop_inside (suc n) (x ∷ xs) ys h = drop_inside n xs ys (omega arith)

  pub take_behind :
      (n : ℕ) (xs ys : List A) → length xs ≤ n → take n (xs ++ ys) ≡ xs ++ take (n - length xs) ys
  take_behind n [] ys h = ap (λ k. take k ys) (omega arith)
  take_behind zero (x ∷ xs) ys h = absurd (omega arith)
  take_behind (suc n) (x ∷ xs) ys h =
      ap (λ r. x ∷ r) (take_behind n xs ys (omega arith))
      ∙ ap (λ k. x ∷ xs ++ take k ys) (suc_minus n (length xs))

  pub drop_behind :
      (n : ℕ) (xs ys : List A) → length xs ≤ n → drop n (xs ++ ys) ≡ drop (n - length xs) ys
  drop_behind n [] ys h = ap (λ k. drop k ys) (omega arith)
  drop_behind zero (x ∷ xs) ys h = absurd (omega arith)
  drop_behind (suc n) (x ∷ xs) ys h =
      drop_behind n xs ys (omega arith) ∙ ap (λ k. drop k ys) (suc_minus n (length xs))
