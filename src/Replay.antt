-- ===== src/Replay.antt =====
-- Replays of saved games (client/replay.c): reading the moves of a file, and the player. The screen
-- is left out; a game that is shown is the player's own.
pub mod Player
pub mod Lines
pub mod Tokens
pub mod Digits
pub mod Roundtrip
pub mod Recorded
pub mod Written
pub mod Live
pub mod Saved
mod Tests
use package.multiplay_chess.Prelude.{
  c_string, ℕ, zero, suc, ◌+◌, ◌-◌, ◌*◌, leb, ltb, ◌==◌, Bool, true, false, not, ◌&&◌, ◌||◌,
  if◌then◌else◌, Option, none, some, List, [], ◌∷◌, length, take, get_elem?, ℤ, pos, minus_one,
  ◌+ℤ◌, ◌-ℤ◌, div_ℤ, pos_part, neg_part, leb_ℤ, ltb_ℤ, Text,
}
use package.multiplay_chess.Game.{Game}
use package.multiplay_chess.Client.{reset_game_to_starting_position, apply_move_from_server}

-- `fgets` with room for so many bytes: the line, its newline included, and what is left.
unfoldable pub fgets : ℕ → Text → Text × Text
fgets zero file = ([], file)
fgets (suc room) [] = ([], [])
fgets (suc room) (c ∷ file) =
    let (line, rest) = fgets room file in if c == b'\n' then (c ∷ [], file) else (c ∷ line, rest)

-- Lines are read up to the first one that starts with a newline; fuel for the loop.
unfoldable pub skip_header : ℕ → Text → Text
skip_header zero file = file
skip_header (suc fuel) file =
    let (line, rest) = fgets 511 file in
    let further = skip_header fuel rest in
    elim line [ [] ↦ rest | c ∷ _ ↦ (if c == b'\n' then rest else further) ]

-- `isspace`
abbrev pub is_space : ℕ → Bool
is_space c = (c == b' ') || (leb 9 c && leb c 13)

unfoldable pub skip_space : Text → Text
skip_space [] = []
skip_space (c ∷ file) = let rest = skip_space file in if is_space c then rest else c ∷ file

unfoldable pub word : ℕ → Text → Text × Text
word zero file = ([], file)
word (suc room) [] = ([], [])
word (suc room) (c ∷ file) =
    let (token, rest) = word room file in if is_space c then ([], c ∷ file) else (c ∷ token, rest)

-- `fscanf(fp, "%31s", token)`; at the end of the file, no token.
unfoldable pub scan_token : Text → Option (Text × Text)
scan_token file = elim (skip_space file) [ [] ↦ none | c ∷ rest ↦ some (word 31 (c ∷ rest)) ]

-- `strchr(token, '.') != NULL`
abbrev pub has_dot : Text → Bool
has_dot [] = false
has_dot (c ∷ s) = (c == b'.') || has_dot s

-- The loop over the tokens, with the places left, and fuel. What has a dot is a number.
unfoldable pub read_moves : ℕ → ℕ → Text → List Text
read_moves zero places file = []
read_moves (suc fuel) places file = elim (scan_token file) [
  | none ↦ []
  | some (token, rest) ↦ elim places [
    | zero ↦ []
    | suc places' ↦
        let s = c_string token in
        let others = read_moves fuel (if has_dot s then suc places' else places') rest in
        if has_dot s then others else take 15 s ∷ others
  ]
]

-- `none` is a file that does not open. No turn of a loop reads nothing but its last.
unfoldable pub load_moves : Option Text → List Text
load_moves none = []
load_moves (some file) = read_moves (suc (length file)) 512 (skip_header (suc (length file)) file)

pub record Timeval : Type 0 where
  pub tv_sec : ℤ
  pub tv_usec : ℤ

pub record ReplayState : Type 0 where
  pub moves : List Text
  pub current_move : ℤ
  pub auto_play : Bool
  pub last_auto_play_time : Timeval

abbrev pub move_count : ReplayState → ℤ
move_count r = pos (length r.moves)

abbrev pub play_move : Game → Text → Game
play_move g (a ∷ b ∷ c ∷ d ∷ more) =
    (apply_move_from_server g (some (a ∷ b ∷ [])) (some (c ∷ d ∷ []))).1
play_move g _ = g

-- `for (i = 0; i <= target_move && i < move_count; i++)`, with the turns that the first test allows.
unfoldable pub play_moves : ℕ → List Text → Game → Game
play_moves zero moves g = g
play_moves (suc turns) [] g = g
play_moves (suc turns) (move ∷ moves) g = play_moves turns moves (play_move g move)

abbrev pub turns_to : ℤ → ℕ
turns_to (pos target) = suc target
turns_to _ = 0

unfoldable pub replay_to_move : ReplayState → ℤ → Game → Game
replay_to_move r target g = play_moves (turns_to target) r.moves (reset_game_to_starting_position g)

unfoldable pub time_diff_ms : Timeval → Timeval → ℤ
time_diff_ms t1 t2 =
    let seconds = t2.tv_sec -ℤ t1.tv_sec in
    let ms = pos (pos_part seconds * 1000) -ℤ pos (neg_part seconds * 1000) in
    ms +ℤ div_ℤ (t2.tv_usec -ℤ t1.tv_usec) (pos 1000)

-- A key of `getch`: the two arrows, or a byte.
pub data Key : Type 0 where
  key_up key_down : Key
  key : ℕ → Key

-- What a turn of the loop meets: three readings of the clock, the key, and whether the program is
-- asked to stop. `none` is no key.
pub record Tick : Type 0 where
  pub now : Timeval
  pub played_at : Timeval
  pub pressed_at : Timeval
  pub pressed : Option Key
  pub shutdown_requested : Bool

pub record Playing : Type 0 where
  pub replay : ReplayState
  pub game : Game

abbrev pub has_next : ReplayState → Bool
has_next r = ltb_ℤ r.current_move (move_count r -ℤ pos 1)

-- `state.current_move = target; replay_to_move(&state, state.current_move);`
unfoldable pub go_to : ℤ → Playing → Playing
go_to target p =
    let r = record p.replay { current_move = target } in
    record { replay = r; game = replay_to_move r target p.game }

-- Half a second has passed since the last move of the auto-play.
abbrev pub due : Tick → ReplayState → Bool
due t r = r.auto_play && has_next r && leb_ℤ (pos 500) (time_diff_ms r.last_auto_play_time t.now)

unfoldable pub auto_step : Tick → Playing → Playing
auto_step t p =
    if due t p.replay
    then (let q = go_to (p.replay.current_move +ℤ pos 1) p in
        record q { replay = record q.replay { last_auto_play_time = t.played_at } })
    else p

abbrev pub stop_auto : Playing → Playing
stop_auto p = record p { replay = record p.replay { auto_play = false } }

abbrev pub toggle_auto : Tick → Playing → Playing
toggle_auto t p =
    let r = p.replay in
    let last : Timeval = if r.auto_play then r.last_auto_play_time else t.pressed_at in
    record p { replay = record r { auto_play = not r.auto_play; last_auto_play_time = last } }

abbrev pub forward_step : Playing → Playing
forward_step p =
    if has_next p.replay then stop_auto (go_to (p.replay.current_move +ℤ pos 1) p) else p

-- `none` leaves the loop.
unfoldable pub on_key : Tick → Key → Playing → Option Playing
on_key t key_up p = some (
    if leb_ℤ (pos 0) p.replay.current_move
    then stop_auto (go_to (p.replay.current_move -ℤ pos 1) p)
    else p)
on_key t key_down p = some (forward_step p)
on_key t (key c) p =
    if (c == b'q') || (c == b'Q') || (c == 27)
    then none
    else if c == b'\n'
    then some (forward_step p)
    else if c == b' '
    then some (toggle_auto t p)
    else some p

abbrev pub key_step : Tick → Playing → Option Playing
key_step t p = elim t.pressed [ none ↦ some p | some k ↦ on_key t k p ]

-- The loop over the turns that come.
unfoldable pub play : List Tick → Playing → Playing
play [] p = p
play (t ∷ ticks) p =
    let q = auto_step t p in
    if t.shutdown_requested then q else elim (key_step t q) [ none ↦ q | some q' ↦ play ticks q' ]

-- `none` where no move is loaded.
unfoldable pub start_replay : Option Text → List Tick → Game → Option Playing
start_replay file ticks g =
    let moves = load_moves file in
    let zero_time : Timeval = record { tv_sec = pos 0; tv_usec = pos 0 } in
    let r : ReplayState = record {
      moves = moves;
      current_move = minus_one;
      auto_play = false;
      last_auto_play_time = zero_time;
    } in
    if length moves == 0
    then none
    else some (play ticks (record { replay = r; game = reset_game_to_starting_position g }))
