-- ===== src/Replay/Lines.antt =====
-- The header of a saved game, line by line (client/replay.c, `load_moves`; client/pgn_save.c).
use multiplay_chess.Prelude.{
  ℕ, zero, suc, ◌+◌, ◌-◌, ◌≤◌, ◌<◌, ◌≡◌, refl, ap, ◌∙◌, Bool, false, if◌then◌else◌, [], ◌∷◌, ◌++◌,
  ++_assoc, length, length-++, ◌==◌, ◌||◌, Text, codes, arith,
}
use multiplay_chess.Piece.{Team, white, black}
use multiplay_chess.Client.{GameState}
use multiplay_chess.Pgn.{tag, names_of, header}
use multiplay_chess.Replay.{fgets, skip_header}

abbrev pub has : ℕ → Text → Bool
has b [] = false
has b (c ∷ s) = (c == b) || has b s

has-++ : (b : ℕ) (s t : Text) → has b s ≡ false → has b t ≡ false → has b (s ++ t) ≡ false
has-++ b [] t h h' = h'
has-++ b (c ∷ s) t h h' = ground (arith, has-++ b s t (ground arith) h')

fgets_line :
    (l rest : Text) (room : ℕ)
    → has b'\n' l ≡ false
    → length l < room
    → fgets room (l ++ (b'\n' ∷ rest)) ≡ (l ++ (b'\n' ∷ []), rest)
unfolding fgets
fgets_line l rest zero h n = absurd (omega arith)
fgets_line [] rest (suc room) h n = refl
fgets_line (c ∷ l) rest (suc room) h n =
    let other : (c == b'\n') ≡ false = ground arith in
    rw (other, fgets_line l rest room (ground arith) (omega arith)) refl

skip_read :
    (file : Text) (c : ℕ) (line rest : Text) (fuel : ℕ)
    → fgets 511 file ≡ (c ∷ line, rest)
    → skip_header (suc fuel) file ≡ (if c == b'\n' then rest else skip_header fuel rest)
unfolding skip_header
skip_read file c line rest fuel h =
    ap
      (λ (r : Text × Text). elim r.0 [
        | [] ↦ r.1
        | c ∷ _ ↦ if c == b'\n' then r.1 else skip_header fuel r.1
      ])
      h

-- A line that is not blank is skipped for one unit of fuel.
skip_line :
    (c : ℕ) (l rest : Text) (fuel : ℕ)
    → has b'\n' (c ∷ l) ≡ false
    → length l < 510
    → 1 ≤ fuel
    → skip_header fuel ((c ∷ l) ++ (b'\n' ∷ rest)) ≡ skip_header (fuel - 1) rest
skip_line c l rest zero h n f = absurd (omega arith)
skip_line c l rest (suc fuel) h n f =
    let other : (c == b'\n') ≡ false = ground arith in
    skip_read _ c (l ++ (b'\n' ∷ [])) rest fuel (fgets_line (c ∷ l) rest 511 h (omega arith))
    ∙ (ap (λ t. if t then rest else skip_header fuel rest) other
        ∙ ap (λ k. skip_header k rest) (omega arith))

skip_blank : (rest : Text) (fuel : ℕ) → 1 ≤ fuel → skip_header fuel (b'\n' ∷ rest) ≡ rest
skip_blank rest zero f = absurd (omega arith)
skip_blank rest (suc fuel) f =
    skip_read _ b'\n' [] rest fuel (fgets_line [] rest 511 refl (omega arith))

-- A tag without its newline.
abbrev tag_line : Text → Text → Text
tag_line name value = b'[' ∷ name ++ (b' ' ∷ b'"' ∷ value ++ (b'"' ∷ b']' ∷ []))

tag-tag_line :
    (name value rest : Text) → tag name value ++ rest ≡ tag_line name value ++ (b'\n' ∷ rest)
tag-tag_line name value rest = ap (λ r. b'[' ∷ r) (simp ++_assoc refl)

skip_tag :
    (name value rest : Text) (fuel : ℕ)
    → has b'\n' name ≡ false
    → has b'\n' value ≡ false
    → length name + length value < 500
    → 1 ≤ fuel
    → skip_header fuel (tag name value ++ rest) ≡ skip_header (fuel - 1) rest
skip_tag name value rest fuel hn hv n f =
    let inner = b' ' ∷ b'"' ∷ value ++ (b'"' ∷ b']' ∷ []) in
    ap (skip_header fuel) (tag-tag_line name value rest)
    ∙ skip_line b'[' (name ++ inner) rest fuel
        (has-++ b'\n' name inner hn (has-++ b'\n' value (b'"' ∷ b']' ∷ []) hv refl))
        (omega (arith, length-++ name inner, length-++ value (b'"' ∷ b']' ∷ []))) f

-- The texts of the header have no newline, and fit the arrays they stand in.
pub record IsHeader (date : Text) (s : GameState) : Type 0 where
  pub date_line : has b'\n' date ≡ false
  pub date_fits : length date ≤ 255
  pub local_line : has b'\n' s.local_player ≡ false
  pub local_fits : length s.local_player ≤ 255
  pub opponent_line : has b'\n' s.opponent_player ≡ false
  pub opponent_fits : length s.opponent_player ≤ 255
  pub result_line : has b'\n' s.pgn_result ≡ false
  pub result_fits : length s.pgn_result ≤ 255

header_assoc :
    (date : Text) (s : GameState) (rest : Text)
    → header date s ++ rest
      ≡ tag (codes "Event") (codes "Multiplay Chess")
        ++ (tag (codes "Site") (codes "Local")
            ++ (tag (codes "Date") date
                ++ (tag (codes "Round") (codes "1")
                    ++ (names_of s.local_team s.local_player s.opponent_player
                        ++ (tag (codes "Result") s.pgn_result ++ (b'\n' ∷ rest))))))
header_assoc date s rest = simp ++_assoc refl

-- The two names in either order.
skip_names :
    (t : Team) (local opponent rest : Text) (fuel : ℕ)
    → has b'\n' local ≡ false
    → has b'\n' opponent ≡ false
    → length local ≤ 255
    → length opponent ≤ 255
    → 2 ≤ fuel
    → skip_header fuel (names_of t local opponent ++ rest) ≡ skip_header (fuel - 1 - 1) rest
skip_names white local opponent rest fuel l o ln on f =
    ap (skip_header fuel) (++_assoc (tag (codes "White") local) _ rest)
    ∙ (skip_tag (codes "White") local _ fuel refl l (omega arith) (omega arith)
        ∙ skip_tag (codes "Black") opponent rest (fuel - 1) refl o (omega arith) (omega arith))
skip_names black local opponent rest fuel l o ln on f =
    ap (skip_header fuel) (++_assoc (tag (codes "White") opponent) _ rest)
    ∙ (skip_tag (codes "White") opponent _ fuel refl o (omega arith) (omega arith)
        ∙ skip_tag (codes "Black") local rest (fuel - 1) refl l (omega arith) (omega arith))

-- Where the texts of the header have no newline, what is left behind the header is the rest of the
-- file.
pub skip_header-header :
    (date : Text) (s : GameState) (rest : Text) (fuel : ℕ)
    → IsHeader date s
    → 8 ≤ fuel
    → skip_header fuel (header date s ++ rest) ≡ rest
skip_header-header date s rest fuel h f =
    ap (skip_header fuel) (header_assoc date s rest)
    ∙ (skip_tag (codes "Event") (codes "Multiplay Chess") _ fuel refl refl (omega arith)
          (omega arith)
        ∙ (skip_tag (codes "Site") (codes "Local") _ (fuel - 1) refl refl (omega arith)
              (omega arith)
            ∙ (skip_tag (codes "Date") date _ (fuel - 1 - 1) refl h.date_line
                  (omega (arith, h.date_fits)) (omega arith)
                ∙ (skip_tag (codes "Round") (codes "1") _ (fuel - 1 - 1 - 1) refl refl (omega arith)
                      (omega arith)
                    ∙ (skip_names s.local_team s.local_player s.opponent_player _
                          (fuel - 1 - 1 - 1 - 1) h.local_line h.opponent_line h.local_fits
                          h.opponent_fits (omega arith)
                        ∙ (skip_tag (codes "Result") s.pgn_result _ (fuel - 1 - 1 - 1 - 1 - 1 - 1)
                              refl h.result_line (omega (arith, h.result_fits)) (omega arith)
                            ∙ skip_blank rest (fuel - 1 - 1 - 1 - 1 - 1 - 1 - 1) (omega arith)))))))
