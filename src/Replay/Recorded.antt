-- ===== src/Replay/Recorded.antt =====
-- The record of a game under way (client/handlers/move.c): the moves that the client writes down, and
-- the position that they lead to.
use multiplay_chess.Prelude.{
  +ℤ_one, ℕ, zero, suc, ◌+◌, ◌≤◌, ◌<◌, ◌≡◌, ◌≢◌, refl, sym, ap, ◌∙◌, Bool, Bool-cases, true, false,
  not, ◌&&◌, ◌||◌, inl, inr, some, List, [], ◌∷◌, ◌++◌, length, take, set, length-set, ◌==◌, ℤ, pos,
  ◌+ℤ◌, ◌-ℤ◌, -ℤ_parts, ltb_ℤ, Text, arith,
}
use multiplay_chess.Piece.{Team, white}
use multiplay_chess.Game.{Game, put}
use multiplay_chess.Fen.{place, tokens, read_field, read_fields, fen_parse}
use multiplay_chess.Client.{
  GameState, reset_game_for_player, reset_game_to_starting_position, init_game, off_range, apply_at,
  apply_move_from_server,
}
use multiplay_chess.Handlers.{already_recorded, record_move}
use multiplay_chess.Replay.{play_move}
use multiplay_chess.Replay.Roundtrip.{IsToken, AllTokens}

-- The position at the start, and after some moves.
abbrev pub start : Game
start = reset_game_to_starting_position init_game

-- A match starts there, for either team.
pub match_start :
    (t : Team) → record (reset_game_for_player init_game t) { side_to_move = white } ≡ start
unfolding reset_game_for_player reset_game_to_starting_position fen_parse tokens read_fields
    read_field place put ◌+ℤ◌ ◌-ℤ◌ init_game
match_start t = refl

-- The fields that neither a reset nor a move writes, as `init_game` leaves them.
abbrev pub Unwritten : Game → Type 0
Unwritten g =
    (g.is_check ≡ false)
    × (g.is_checkmate ≡ false)
    × (g.is_stalemate ≡ false)
    × (g.fullmove_number ≡ pos 1)

-- The start with these fields.
abbrev start_with : Bool → Bool → Bool → ℤ → Game
start_with check mate stale number = record start {
  is_check = check;
  is_checkmate = mate;
  is_stalemate = stale;
  fullmove_number = number;
}

reset_whole :
    (g : Game)
    → reset_game_to_starting_position g
      ≡ start_with g.is_check g.is_checkmate g.is_stalemate g.fullmove_number
unfolding reset_game_to_starting_position fen_parse tokens read_fields read_field place put ◌+ℤ◌
    ◌-ℤ◌ init_game
reset_whole g = refl

first_start : start_with false false false (pos 1) ≡ start
unfolding reset_game_to_starting_position fen_parse tokens read_fields read_field place put ◌+ℤ◌
    ◌-ℤ◌ init_game
first_start = refl

-- A reset gives the start, whatever else the game held.
pub reset-start : (g : Game) → Unwritten g → reset_game_to_starting_position g ≡ start
reset-start g (check, mate, stale, number) =
    reset_whole g
    ∙ (ap (λ b. start_with b g.is_checkmate g.is_stalemate g.fullmove_number) check
        ∙ (ap (λ b. start_with false b g.is_stalemate g.fullmove_number) mate
            ∙ (ap (λ b. start_with false false b g.fullmove_number) stale
                ∙ (ap (start_with false false false) number ∙ first_start))))

abbrev pub play_all : List Text → Game → Game
play_all [] g = g
play_all (m ∷ ms) g = play_all ms (play_move g m)

-- The count is within the array, the moves are tokens, and they lead to the position.
pub record IsRecorded (s : GameState) : Type 0 where
  pub number : ℕ
  pub counted : s.pgn_move_count ≡ pos number
  pub within : number ≤ 512
  pub size : length s.pgn_moves ≡ 512
  pub tokens : AllTokens (take number s.pgn_moves)
  pub in_step : s.game ≡ play_all (take number s.pgn_moves) start

play_all-++ :
    (ms : List Text) (m : Text) (g : Game)
    → play_all (ms ++ (m ∷ [])) g ≡ play_move (play_all ms g) m
play_all-++ [] m g = refl
play_all-++ (x ∷ ms) m g = play_all-++ ms m (play_move g x)

AllTokens-++ : (ms : List Text) (m : Text) → AllTokens ms → IsToken m → AllTokens (ms ++ (m ∷ []))
AllTokens-++ [] m ts t = (t, tt)
AllTokens-++ (x ∷ ms) m (tx, ts) t = (tx, AllTokens-++ ms m ts t)

take-set :
    (ms : List Text) (n : ℕ) (m : Text)
    → n < length ms
    → take (suc n) (set ms n m) ≡ take n ms ++ (m ∷ [])
take-set [] n m h = absurd (omega arith)
take-set (x ∷ ms) zero m h = refl
take-set (x ∷ ms) (suc n) m h = ap (λ r. x ∷ r) (take-set ms n m (omega arith))

-- A move that is applied has two squares of two bytes each, which make a token.
abbrev pub Applied : Game → Text → Text → Type 0
Applied g from to =
    IsToken (take 5 (from ++ to))
    × (play_move g (take 5 (from ++ to)) ≡ (apply_move_from_server g (some from) (some to)).1)

-- A byte on the board is between its bounds.
byte_within : (c base : ℕ) → off_range (pos c -ℤ pos base) ≡ false → (base ≤ c) × (c < base + 8)
byte_within c base h =
    (ground (arith, -ℤ_parts (pos c) (pos base)), ground (arith, -ℤ_parts (pos c) (pos base)))

square-IsToken :
    (a b a' b' : ℕ)
    → (off_range (pos a -ℤ pos b'a')
        || off_range (pos b -ℤ pos b'1')
        || off_range (pos a' -ℤ pos b'a')
        || off_range (pos b' -ℤ pos b'1'))
      ≡ false
    → IsToken (a ∷ b ∷ a' ∷ b' ∷ [])
square-IsToken a b a' b' h =
    let (al, ah) = byte_within a b'a' (ground arith) in
    let (bl, bh) = byte_within b b'1' (ground arith) in
    let (al', ah') = byte_within a' b'a' (ground arith) in
    let (bl', bh') = byte_within b' b'1' (ground arith) in
    record {
      visible = ground arith;
      no_dot = ground arith;
      longer = omega arith;
      fits = omega arith;
    }

applied :
    (g : Game) (from to : Text)
    → (apply_move_from_server g (some from) (some to)).0 ≡ true
    → Applied g from to
unfolding apply_move_from_server apply_at
applied g [] to h = absurd (cc)
applied g (a ∷ []) to h = absurd (cc)
applied g (a ∷ b ∷ c ∷ r) to h = absurd (cc)
applied g (a ∷ b ∷ []) [] h = absurd (cc)
applied g (a ∷ b ∷ []) (a' ∷ []) h = absurd (cc)
applied g (a ∷ b ∷ []) (a' ∷ b' ∷ c' ∷ r) h = absurd (cc)
applied g (a ∷ b ∷ []) (a' ∷ b' ∷ []) h = (square-IsToken a b a' b' (ground arith), refl)

pub not_applied :
    (g : Game) (from to : Text)
    → (apply_move_from_server g (some from) (some to)).0 ≡ false
    → (apply_move_from_server g (some from) (some to)).1 ≡ g
unfolding apply_move_from_server apply_at
not_applied g [] to h = refl
not_applied g (a ∷ []) to h = refl
not_applied g (a ∷ b ∷ c ∷ r) to h = refl
not_applied g (a ∷ b ∷ []) [] h = refl
not_applied g (a ∷ b ∷ []) (a' ∷ []) h = refl
not_applied g (a ∷ b ∷ []) (a' ∷ b' ∷ c' ∷ r) h = refl
not_applied g (a ∷ b ∷ []) (a' ∷ b' ∷ []) h = ground arith

-- There is a place for the move, and it is not the one recorded last.
pub record IsFresh (move : Text) (s : GameState) : Type 0 where
  pub place : s.pgn_move_count ≢ pos 512
  pub other : already_recorded s move ≡ false

ltb_next : (n : ℕ) → n ≤ 512 → pos n ≢ pos 512 → ltb_ℤ (pos n) (pos 512) ≡ true
ltb_next n h e = elim (Bool-cases (n == 512)) [
  | inl full ↦ absurd (e (ground arith))
  | inr space ↦ ground arith
]

-- A fresh move passes the test of `record_move`.
pub has_place :
    (s : GameState) (move : Text)
    → IsRecorded s
    → IsFresh move s
    → (ltb_ℤ s.pgn_move_count (pos 512) && not (already_recorded s move)) ≡ true
has_place s move r f =
    let n = r.number in
    let place : ltb_ℤ s.pgn_move_count (pos 512) ≡ true =
      ap (λ c. ltb_ℤ c (pos 512)) r.counted ∙ ltb_next n r.within (λ e. f.place (r.counted ∙ e)) in
    rw (place, f.other) refl

-- Applying a move and recording it keeps the record in step with the position.
pub record_move-IsRecorded :
    (s : GameState) (from to : Text)
    → IsRecorded s
    → IsFresh (take 5 (from ++ to)) s
    → (apply_move_from_server s.game (some from) (some to)).0 ≡ true
    → IsRecorded (
        record_move from to
          (record s { game = (apply_move_from_server s.game (some from) (some to)).1 }))
unfolding record_move
record_move-IsRecorded s from to r f ok =
    let move = take 5 (from ++ to) in
    let (token, played) = applied s.game from to ok in
    let n = r.number in
    let place : ltb_ℤ s.pgn_move_count (pos 512) ≡ true =
      ap (λ c. ltb_ℤ c (pos 512)) r.counted ∙ ltb_next n r.within (λ e. f.place (r.counted ∙ e)) in
    let less : n < 512 = ground (arith, r.counted) in
    let taken = take-set s.pgn_moves n move (omega (arith, r.size)) in
    rw (place, f.other)
      (record {
        number = suc n;
        counted = ap (λ c. c +ℤ pos 1) r.counted ∙ +ℤ_one n;
        within = omega arith;
        size = length-set s.pgn_moves _ move ∙ r.size;
        tokens = rw (r.counted, taken) (AllTokens-++ (take n s.pgn_moves) move r.tokens token);
        in_step =
            rw (r.counted, taken)
              (sym played
                ∙ (ap (λ g. play_move g move) r.in_step
                    ∙ sym (play_all-++ (take n s.pgn_moves) move start)));
      })
