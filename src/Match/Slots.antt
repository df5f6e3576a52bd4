-- ===== src/Match/Slots.antt =====
-- The search for a slot in the tables of server/match_manager.c.
use multiplay_chess.Prelude.{
  ℕ, zero, suc, ◌≡◌, refl, Bool, true, Bool-cases, none, some, Option-cases, List, [], ◌∷◌,
  get_elem?, set, count, inl, inr, arith,
}
use multiplay_chess.Match.{find_slot}

module _ {ℓ} {A : Type ℓ} (test : A → Bool) where
  -- The slot found passes the test and holds what is given with it.
  pub find_slot-some :
      (xs : List A) {i : ℕ} {a : A}
      → find_slot test xs ≡ some (i, a)
      → (get_elem? xs i ≡ some a) × (test a ≡ true)
  unfolding find_slot
  find_slot-some [] h = absurd (cc)
  find_slot-some (x ∷ xs) {i} {a} h = elim (Bool-cases (test x)) [
    | inl t ↦ ground arith
    | inr f ↦ elim (Option-cases (find_slot test xs)) [
      | inl none_found ↦ let h' = rw (f, none_found, find_slot) at h in absurd (cc)
      | inr ((j, b), found) ↦
          let rec = find_slot-some xs {i = j} {a = b} found in
          let e : some (suc j, b) ≡ some (i, a) = rw (f, found, find_slot) at h in
          let ei : suc j ≡ i = ground arith in let ea : b ≡ a = cc in rw (← ei, ← ea) rec
    ]
  ]

  -- Where no slot is found, none passes.
  pub find_slot-none : (xs : List A) → find_slot test xs ≡ none → count test xs ≡ 0
  unfolding find_slot
  find_slot-none [] h = refl
  find_slot-none (x ∷ xs) h = ground (arith, find_slot-none xs)

  -- A write that passes, where nothing else does, is what the search finds.
  pub find_slot-set :
      (xs : List A) (i : ℕ) {a : A} (b : A)
      → find_slot test xs ≡ none
      → get_elem? xs i ≡ some a
      → test b ≡ true
      → find_slot test (set xs i b) ≡ some (i, b)
  unfolding find_slot
  find_slot-set [] i b h e t = absurd (cc)
  find_slot-set (x ∷ xs) zero b h e t = ground arith
  find_slot-set (x ∷ xs) (suc i) b h e t = elim (Bool-cases (test x)) [
    | inl hit ↦ let h' = rw (hit, find_slot) at h in absurd (cc)
    | inr miss ↦ elim (Option-cases (find_slot test xs)) [
      | inl nowhere ↦ rw (miss, find_slot) (rw (find_slot-set xs i b nowhere e t))
      | inr (found, k) ↦ let h' = rw (miss, k, find_slot) at h in absurd (cc)
    ]
  ]
