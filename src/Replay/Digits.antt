-- ===== src/Replay/Digits.antt =====
-- The number before a move of a saved game (client/pgn_save.c, "%d.").
use multiplay_chess.Prelude.{
  ℕ, zero, suc, ◌+◌, ◌/◌, ◌%◌, ◌≤◌, ◌<◌, ◌≡◌, refl, Bool-cases, true, inl, inr, [], ◌∷◌, ◌++◌,
  length, ◌==◌, Text, arith,
}
use multiplay_chess.Match.{decimal_from}
use multiplay_chess.Replay.{has_dot}
use multiplay_chess.Replay.Tokens.{solid}

-- The digits of a number.
pub decimal_from-solid :
    (fuel n : ℕ) (acc : Text) → solid acc ≡ true → solid (decimal_from fuel n acc) ≡ true
unfolding decimal_from
decimal_from-solid zero n acc h = h
decimal_from-solid (suc fuel) n acc h =
    let d : solid ((b'0' + n % 10) ∷ acc) ≡ true = ground arith in
    elim (Bool-cases (n / 10 == 0)) [
      | inl last ↦ rw (last, decimal_from) d
      | inr more ↦ rw (more, decimal_from) (decimal_from-solid fuel (n / 10) _ d)
    ]

-- One, two and three digits.
pub digits_1 :
    (fuel n : ℕ) (acc : Text) → n < 10 → length (decimal_from fuel n acc) ≤ 1 + length acc
unfolding decimal_from
digits_1 zero n acc h = omega arith
digits_1 (suc fuel) n acc h =
    let last : (n / 10 == 0) ≡ true = ground arith in rw (last, decimal_from) (omega arith)

pub digits_2 :
    (fuel n : ℕ) (acc : Text) → n < 100 → length (decimal_from fuel n acc) ≤ 2 + length acc
unfolding decimal_from
digits_2 zero n acc h = omega arith
digits_2 (suc fuel) n acc h = elim (Bool-cases (n / 10 == 0)) [
  | inl last ↦ rw (last, decimal_from) (omega arith)
  | inr more ↦
      rw (more, decimal_from) (omega (arith, digits_1 fuel (n / 10) ((b'0' + n % 10) ∷ acc)))
]

pub digits_3 :
    (fuel n : ℕ) (acc : Text) → n < 1000 → length (decimal_from fuel n acc) ≤ 3 + length acc
unfolding decimal_from
digits_3 zero n acc h = omega arith
digits_3 (suc fuel) n acc h = elim (Bool-cases (n / 10 == 0)) [
  | inl last ↦ rw (last, decimal_from) (omega arith)
  | inr more ↦
      rw (more, decimal_from) (omega (arith, digits_2 fuel (n / 10) ((b'0' + n % 10) ∷ acc)))
]

pub has_dot-++ : (s : Text) → has_dot (s ++ (b'.' ∷ [])) ≡ true
has_dot-++ [] = refl
has_dot-++ (c ∷ s) = ground (arith, has_dot-++ s)
