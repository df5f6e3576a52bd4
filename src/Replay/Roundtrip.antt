-- ===== src/Replay/Roundtrip.antt =====
-- A saved game read back (client/pgn_save.c, `write_pgn`; client/replay.c, `load_moves`).
use multiplay_chess.Prelude.{
  ℕ, zero, suc, ◌+◌, ◌*◌, ◌/◌, ◌%◌, ◌≤◌, ◌<◌, ◌≡◌, refl, sym, ap, ◌∙◌, Bool-cases, true, false, inl,
  inr, if◌then◌else◌, some, List, [], ◌∷◌, ◌++◌, ++_assoc, length, length-++, take, drop, get_elem?,
  ◌==◌, pos, pos_part, Text, arith,
}
use multiplay_chess.Match.{decimal_from, decimal}
use multiplay_chess.Client.{GameState}
use multiplay_chess.Pgn.{print_move, print_moves, header, pgn_text}
use multiplay_chess.Replay.{is_space, has_dot, skip_space, scan_token, read_moves, load_moves}
use multiplay_chess.Replay.Lines.{IsHeader, skip_header-header}
use multiplay_chess.Replay.Digits.{decimal_from-solid, digits_3, has_dot-++}
use multiplay_chess.Replay.Tokens.{
  solid, solid-++, c_string-solid, take_whole, scan_solid, read_space, read_number, read_move,
}

-- What a recorded move looks like: from one to fifteen bytes, no space and no dot.
pub record IsToken (m : Text) : Type 0 where
  pub visible : solid m ≡ true
  pub no_dot : has_dot m ≡ false
  pub longer : 1 ≤ length m
  pub fits : length m ≤ 15

read_token :
    (fuel places c : ℕ) (m rest : Text)
    → IsToken m
    → is_space c ≡ true
    → read_moves (suc fuel) (suc places) (m ++ (c ∷ rest)) ≡ m ∷ read_moves fuel places (c ∷ rest)
read_token fuel places c [] rest t e = absurd (omega (arith, t.longer))
read_token fuel places c (a ∷ m) rest t e =
    let whole = c_string-solid (a ∷ m) t.visible in
    read_move fuel places _ (a ∷ m) (c ∷ rest)
      (scan_solid a m rest c t.visible (omega (arith, t.fits)) e) (ap has_dot whole ∙ t.no_dot)
    ∙ ap (λ s. s ∷ read_moves fuel places (c ∷ rest))
        (ap (take 15) whole ∙ take_whole 15 (a ∷ m) t.fits)

read_dotted :
    (fuel places : ℕ) (u rest : Text)
    → solid u ≡ true
    → has_dot u ≡ true
    → length u ≤ 31
    → read_moves (suc fuel) (suc places) (u ++ (b' ' ∷ rest)) ≡ read_moves fuel (suc places) rest
read_dotted fuel places [] rest h d n = absurd (ground arith)
read_dotted fuel places (a ∷ u) rest h d n =
    read_number fuel places _ (a ∷ u) (b' ' ∷ rest) (scan_solid a u rest b' ' h (omega arith) refl)
      (ap has_dot (c_string-solid (a ∷ u) h) ∙ d)
    ∙ read_space fuel (suc places) b' ' rest refl

-- The move at an even place: its number, and the move.
read_even :
    (fuel places k c : ℕ) (m rest : Text)
    → k < 1000
    → IsToken m
    → is_space c ≡ true
    → read_moves (suc (suc fuel)) (suc places) (decimal k ++ (b'.' ∷ b' ' ∷ m ++ (c ∷ rest)))
      ≡ m ∷ read_moves fuel places (c ∷ rest)
unfolding decimal_from
read_even fuel places k c m rest small t e =
    let digits : solid (decimal k) ≡ true = decimal_from-solid (suc k) k [] refl in
    let dotted = decimal k ++ (b'.' ∷ []) in
    let n : length (decimal k) ≤ 3 = omega (arith, digits_3 (suc k) k [] small) in
    ap (read_moves (suc (suc fuel)) (suc places)) (sym (++_assoc (decimal k) (b'.' ∷ []) _))
    ∙ (read_dotted (suc fuel) places dotted _ (solid-++ (decimal k) (b'.' ∷ []) digits refl)
          (has_dot-++ (decimal k)) (omega (arith, length-++ (decimal k) (b'.' ∷ []), n))
        ∙ read_token fuel places c m rest t e)

-- The moves from place i on, as `print_moves` and the last newline give them.
abbrev pub printed : ℕ → List Text → Text
printed i [] = if i % 2 == 0 then [] else b'\n' ∷ []
printed i (m ∷ ms) = print_move i m ++ printed (suc i) ms

abbrev pub AllTokens : List Text → Type 0
AllTokens [] = Unit
AllTokens (m ∷ ms) = IsToken m × AllTokens ms

print_even :
    (i : ℕ) (m rest : Text)
    → (i % 2 == 0) ≡ true
    → print_move i m ++ rest ≡ decimal (i / 2 + 1) ++ (b'.' ∷ b' ' ∷ m ++ rest)
print_even i m rest even =
    ap
      (λ t.
        (if t then decimal (i / 2 + 1) ++ (b'.' ∷ b' ' ∷ m) else b' ' ∷ m ++ (b'\n' ∷ [])) ++ rest)
      even
    ∙ ++_assoc (decimal (i / 2 + 1)) (b'.' ∷ b' ' ∷ m) rest

print_odd :
    (i : ℕ) (m rest : Text)
    → (i % 2 == 0) ≡ false
    → print_move i m ++ rest ≡ b' ' ∷ (m ++ (b'\n' ∷ rest))
print_odd i m rest odd =
    ap
      (λ t.
        (if t then decimal (i / 2 + 1) ++ (b'.' ∷ b' ' ∷ m) else b' ' ∷ m ++ (b'\n' ∷ [])) ++ rest)
      odd
    ∙ ap (λ r. b' ' ∷ r) (++_assoc m (b'\n' ∷ []) rest)

-- Behind an odd place the text goes on with a space.
odd_start :
    (i : ℕ) (ms : List Text)
    → (i % 2 == 0) ≡ false
    → (c : ℕ) × (rest : Text) × (printed i ms ≡ c ∷ rest) × (is_space c ≡ true)
odd_start i [] odd = (b'\n', [], ap (λ t. if t then [] else b'\n' ∷ []) odd, refl)
odd_start i (m ∷ ms) odd =
    (b' ', m ++ (b'\n' ∷ printed (suc i) ms), print_odd i m (printed (suc i) ms) odd, refl)

read_end : (fuel places : ℕ) → read_moves fuel places [] ≡ []
unfolding read_moves scan_token skip_space
read_end zero places = refl
read_end (suc fuel) places = refl

read_printed :
    (ms : List Text) (i fuel places : ℕ)
    → AllTokens ms
    → length ms ≤ places
    → 2 * length ms ≤ fuel
    → i + length ms ≤ 512
    → read_moves fuel places (printed i ms) ≡ ms
read_printed [] i fuel places t p f n = elim (Bool-cases (i % 2 == 0)) [
  | inl even ↦
      ap (λ b. read_moves fuel places (if b then [] else b'\n' ∷ [])) even ∙ read_end fuel places
  | inr odd ↦
      ap (λ b. read_moves fuel places (if b then [] else b'\n' ∷ [])) odd
      ∙ (read_space fuel places b'\n' [] refl ∙ read_end fuel places)
]
read_printed (m ∷ ms) i fuel zero t p f n = absurd (omega arith)
read_printed (m ∷ ms) i zero (suc places) t p f n = absurd (omega arith)
read_printed (m ∷ ms) i (suc zero) (suc places) t p f n = absurd (omega arith)
read_printed (m ∷ ms) i (suc (suc fuel)) (suc places) (t, ts) p f n =
    elim (Bool-cases (i % 2 == 0)) [
      | inl even ↦
          let (c, rest, e, space) = odd_start (suc i) ms (ground arith) in
          ap (read_moves (suc (suc fuel)) (suc places)) (
            print_even i m (printed (suc i) ms) even
            ∙ ap (λ r. decimal (i / 2 + 1) ++ (b'.' ∷ b' ' ∷ m ++ r)) e)
          ∙ (read_even fuel places (i / 2 + 1) c m rest (omega arith) t space
              ∙ ap (λ r. m ∷ r)
                  (ap (read_moves fuel places) (sym e)
                    ∙ read_printed ms (suc i) fuel places ts (omega arith) (omega arith)
                        (omega arith)))
      | inr odd ↦
          ap (read_moves (suc (suc fuel)) (suc places)) (print_odd i m (printed (suc i) ms) odd)
          ∙ (read_space (suc (suc fuel)) (suc places) b' ' _ refl
              ∙ (read_token (suc fuel) places b'\n' m (printed (suc i) ms) t refl
                  ∙ ap (λ r. m ∷ r)
                      (read_space (suc fuel) places b'\n' (printed (suc i) ms) refl
                        ∙ read_printed ms (suc i) (suc fuel) places ts (omega arith) (omega arith)
                            (omega arith))))
    ]

drop_get :
    (xs : List Text) (i : ℕ)
    → i < length xs
    → (m : Text) × (get_elem? xs i ≡ some m) × (drop i xs ≡ m ∷ drop (suc i) xs)
drop_get [] i h = absurd (omega arith)
drop_get (x ∷ xs) zero h = (x, refl, refl)
drop_get (x ∷ xs) (suc i) h = drop_get xs i (omega arith)

-- The loop of `write_pgn` with the last newline.
printed_lem :
    (turns i last : ℕ) (moves : List Text)
    → i + turns ≡ last
    → last ≤ length moves
    → print_moves turns i moves ++ (if last % 2 == 0 then [] else b'\n' ∷ [])
      ≡ printed i (take turns (drop i moves))
unfolding print_moves
printed_lem zero i last moves e h = ap (λ k. if k % 2 == 0 then [] else b'\n' ∷ []) (omega arith)
printed_lem (suc turns) i last moves e h =
    let (m, here, split) = drop_get moves i (omega arith) in
    let rest = printed_lem turns (suc i) last moves (omega arith) h in
    rw (split, here, print_moves)
      (++_assoc (print_move i m) (print_moves turns (suc i) moves) _
        ∙ ap (λ r. print_move i m ++ r) rest)

length-print_move : (i : ℕ) (m : Text) → 1 ≤ length m → 2 ≤ length (print_move i m)
length-print_move i m h = elim (Bool-cases (i % 2 == 0)) [
  | inl even ↦ rw even (omega (arith, length-++ (decimal (i / 2 + 1)) (b'.' ∷ b' ' ∷ m)))
  | inr odd ↦ rw odd (omega (arith, length-++ m (b'\n' ∷ [])))
]

length-printed : (i : ℕ) (ms : List Text) → AllTokens ms → 2 * length ms ≤ length (printed i ms)
length-printed i [] t = omega arith
length-printed i (m ∷ ms) (t, ts) = omega (
  arith,
  length-++ (print_move i m) (printed (suc i) ms),
  length-print_move i m t.longer,
  length-printed (suc i) ms ts,
)

pub length-take : (xs : List Text) (n : ℕ) → n ≤ length xs → length (take n xs) ≡ n
length-take xs zero h = refl
length-take [] (suc n) h = absurd (omega arith)
length-take (x ∷ xs) (suc n) h = ap suc (length-take xs n (omega arith))

-- A game whose moves are tokens, whose count is within its array and whose names, date and result
-- have no newline: the file that `write_pgn` writes is read back as exactly its moves, in order.
pub load_moves-pgn_text :
    (date : Text) (s : GameState) (n : ℕ)
    → IsHeader date s
    → s.pgn_move_count ≡ pos n
    → n ≤ length s.pgn_moves
    → n ≤ 512
    → AllTokens (take n s.pgn_moves)
    → load_moves (some (pgn_text date s)) ≡ take n s.pgn_moves
unfolding load_moves pgn_text
load_moves-pgn_text date s n h count size within tokens =
    let ms = take n s.pgn_moves in
    let file = header date s ++ printed 0 ms in
    let len = length-++ (header date s) (printed 0 ms) in
    let text : pgn_text date s ≡ file =
      ap
        (λ c.
          header date s
          ++ (print_moves (pos_part c) 0 s.pgn_moves
              ++ (if pos_part c % 2 == 0 then [] else b'\n' ∷ [])))
        count
      ∙ ap (λ r. header date s ++ r) (printed_lem n 0 n s.pgn_moves (omega arith) size) in
    ap (λ f. load_moves (some f)) text
    ∙ (ap (read_moves (suc (length file)) 512)
          (skip_header-header date s (printed 0 ms) (suc (length file)) h (omega arith))
        ∙ read_printed ms 0 (suc (length file)) 512 tokens
            (omega (arith, length-take s.pgn_moves n size))
            (omega (arith, len, length-printed 0 ms tokens))
            (omega (arith, length-take s.pgn_moves n size)))
