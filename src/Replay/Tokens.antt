-- ===== src/Replay/Tokens.antt =====
-- The tokens of a saved game, numbers and moves (client/replay.c, `load_moves`; client/pgn_save.c).
use multiplay_chess.Prelude.{
  c_string, ℕ, zero, suc, ◌≤◌, ◌≡◌, refl, sym, ap, ◌∙◌, Bool, true, false, not, ◌&&◌, if◌then◌else◌,
  Option, none, some, [], ◌∷◌, ◌++◌, length, take, ◌==◌, Text, arith,
}
use multiplay_chess.Replay.{is_space, skip_space, word, scan_token, has_dot, read_moves}

-- No byte is a space or the zero that ends a string.
abbrev pub solid : Text → Bool
solid [] = true
solid (c ∷ s) = not (is_space c) && not (c == 0) && solid s

pub solid-++ : (s t : Text) → solid s ≡ true → solid t ≡ true → solid (s ++ t) ≡ true
solid-++ [] t h h' = h'
solid-++ (c ∷ s) t h h' = ground (arith, solid-++ s t (ground arith) h')

pub c_string-solid : (s : Text) → solid s ≡ true → c_string s ≡ s
c_string-solid [] h = refl
c_string-solid (zero ∷ s) h = absurd (ground arith)
c_string-solid (suc c ∷ s) h = ap (λ r. suc c ∷ r) (c_string-solid s (ground arith))

pub take_whole : (n : ℕ) (s : Text) → length s ≤ n → take n s ≡ s
take_whole zero [] h = refl
take_whole zero (c ∷ s) h = absurd (omega arith)
take_whole (suc n) [] h = refl
take_whole (suc n) (c ∷ s) h = ap (λ r. c ∷ r) (take_whole n s (omega arith))

pub word-solid :
    (s rest : Text) (room c : ℕ)
    → solid s ≡ true
    → length s ≤ room
    → is_space c ≡ true
    → word room (s ++ (c ∷ rest)) ≡ (s, c ∷ rest)
unfolding word
word-solid [] rest zero c h n e = refl
word-solid [] rest (suc room) c h n e =
    ap (λ t. if t then ([], c ∷ rest) else (c ∷ (word room rest).0, (word room rest).1)) e
word-solid (a ∷ s) rest zero c h n e = absurd (omega arith)
word-solid (a ∷ s) rest (suc room) c h n e =
    let visible : is_space a ≡ false = ground arith in
    ap
      (λ t.
        if t
        then ([], a ∷ s ++ (c ∷ rest))
        else (a ∷ (word room (s ++ (c ∷ rest))).0, (word room (s ++ (c ∷ rest))).1))
      visible
    ∙ ap (λ (r : Text × Text). (a ∷ r.0, r.1))
        (word-solid s rest room c (ground arith) (omega arith) e)

skip_visible : (c : ℕ) (file : Text) → is_space c ≡ false → skip_space (c ∷ file) ≡ c ∷ file
unfolding skip_space
skip_visible c file e = ap (λ t. if t then skip_space file else c ∷ file) e

skip_one : (c : ℕ) (file : Text) → is_space c ≡ true → skip_space (c ∷ file) ≡ skip_space file
unfolding skip_space
skip_one c file e = ap (λ t. if t then skip_space file else c ∷ file) e

abbrev token_at : Text → Option (Text × Text)
token_at [] = none
token_at (c ∷ rest) = some (word 31 (c ∷ rest))

scan-token_at : (file : Text) → scan_token file ≡ token_at (skip_space file)
unfolding scan_token
scan-token_at file =
    elim (skip_space file)
      as (λ t. elim t [ [] ↦ none | c ∷ rest ↦ some (word 31 (c ∷ rest)) ] ≡ token_at t) [
        | [] ↦ refl
        | c ∷ rest ↦ refl
      ]

-- The next token of a file that goes on with a space behind it.
pub scan_solid :
    (a : ℕ) (s rest : Text) (c : ℕ)
    → solid (a ∷ s) ≡ true
    → length s ≤ 30
    → is_space c ≡ true
    → scan_token ((a ∷ s) ++ (c ∷ rest)) ≡ some (a ∷ s, c ∷ rest)
scan_solid a s rest c h n e =
    scan-token_at _
    ∙ (ap token_at (skip_visible a (s ++ (c ∷ rest)) (ground arith))
        ∙ ap some (word-solid (a ∷ s) rest 31 c h (omega arith) e))

scan_space : (c : ℕ) (file : Text) → is_space c ≡ true → scan_token (c ∷ file) ≡ scan_token file
scan_space c file e = scan-token_at _ ∙ (ap token_at (skip_one c file e) ∙ sym (scan-token_at file))

-- A space before a token is passed over.
pub read_space :
    (fuel places c : ℕ) (file : Text)
    → is_space c ≡ true
    → read_moves fuel places (c ∷ file) ≡ read_moves fuel places file
unfolding read_moves
read_space zero places c file e = refl
read_space (suc fuel) places c file e = rw (scan_space c file e, read_moves) refl

-- A token with a dot is no move.
pub read_number :
    (fuel places : ℕ) (file token rest : Text)
    → scan_token file ≡ some (token, rest)
    → has_dot (c_string token) ≡ true
    → read_moves (suc fuel) (suc places) file ≡ read_moves fuel (suc places) rest
unfolding read_moves
read_number fuel places file token rest h dot = rw (h, read_moves) (rw dot refl)

-- Another token is the next move.
pub read_move :
    (fuel places : ℕ) (file token rest : Text)
    → scan_token file ≡ some (token, rest)
    → has_dot (c_string token) ≡ false
    → read_moves (suc fuel) (suc places) file
      ≡ take 15 (c_string token) ∷ read_moves fuel places rest
unfolding read_moves
read_move fuel places file token rest h plain = rw (h, read_moves) (rw plain refl)
