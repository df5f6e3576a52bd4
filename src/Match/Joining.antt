-- ===== src/Match/Joining.antt =====
-- Asking for a match: `generate_game_id` and `add_player_to_matching` of server/match_manager.c.
use multiplay_chess.Prelude.{
  ℕ, zero, suc, ◌+◌, ◌/◌, ◌%◌, ltb, ◌==◌, Bool, true, false, not, if◌then◌else◌, Option, none, some,
  List, [], ◌∷◌, ◌++◌, length, set, ℤ, pos, negsuc, minus_one, ◌+ℤ◌, ◌-ℤ◌, mod_ℤ, ◌==ℤ◌, Text,
  codes,
}
use multiplay_chess.Fen.{init_startpos}
use multiplay_chess.Protocol.{team_unspecified, team_white, team_black}
use multiplay_chess.Match.State.{
  time_limit_ms, WaitingPlayer, ActiveGame, MatchResult, MatchManager, waiting, game_started,
  match_error,
}

-- `for (i = 0; i < n; i++) if (test(&a[i])) ...`: the first place that passes, and what it holds.
unfoldable pub find_slot {ℓ} : {A : Type ℓ} → (A → Bool) → List A → Option (ℕ × A)
find_slot test [] = none
find_slot test (x ∷ xs) = elim (test x) [
  | true ↦ some (0, x)
  | false ↦ elim (find_slot test xs) [ none ↦ none | some (i, a) ↦ some (suc i, a) ]
]

-- Decimal digits, as `printf` writes them. A number has no more digits than the fuel.
unfoldable pub decimal_from : ℕ → ℕ → Text → Text
decimal_from zero n acc = acc
decimal_from (suc fuel) n acc =
    let acc' = (b'0' + n % 10) ∷ acc in
    elim (n / 10 == 0) [ true ↦ acc' | false ↦ decimal_from fuel (n / 10) acc' ]

abbrev pub decimal : ℕ → Text
unfolding decimal_from
decimal n = decimal_from (suc n) n []

abbrev pub decimal_ℤ : ℤ → Text
unfolding decimal_from
decimal_ℤ (pos n) = decimal n
decimal_ℤ (negsuc n) = b'-' ∷ decimal (suc n)

-- "game_%ld_%d"
unfoldable pub generate_game_id : ℤ → ℕ → Text
generate_game_id now counter =
    codes "game_" ++ (decimal_ℤ (mod_ℤ now (pos 100000)) ++ (b'_' ∷ decimal counter))

-- What the clock says at each of the calls of `time` and `get_current_time_ms`.
pub record Readings : Type 0 where
  pub colour_time : ℤ
  pub id_time : ℤ
  pub start_time : ℤ
  pub move_ms : ℤ
  pub check_ms : ℤ

-- `strcpy` into a `char[64]`; `none` is a write past its end.
abbrev pub copy_id : Text → Option Text
copy_id s = if ltb (length s) 64 then some s else none

abbrev pub error_result : Text → MatchResult
error_result message = record {
  status = match_error;
  game_id = none;
  assigned_team = team_unspecified;
  opponent_fd = minus_one;
  opponent_name = none;
  error_message = some message;
}

abbrev pub is_even : ℤ → Bool
is_even z = mod_ℤ z (pos 2) ==ℤ pos 0

-- The game set up in a free slot. The newcomer has White if the clock is even.
unfoldable pub new_game : Readings → ℤ → Text → WaitingPlayer → ℕ → ActiveGame → ActiveGame
new_game now fd player_id w counter old =
    let mine = is_even now.colour_time in
    record {
      game_id = generate_game_id now.id_time counter;
      white_player_fd = if mine then fd else w.fd;
      black_player_fd = if mine then w.fd else fd;
      white_player_id = if mine then player_id else w.player_id;
      black_player_id = if mine then w.player_id else player_id;
      game_start_time = now.start_time;
      is_active = true;
      game_state = init_startpos old.game_state;
      time_limit_per_player = time_limit_ms;
      white_time_remaining = time_limit_ms;
      black_time_remaining = time_limit_ms;
      last_move_time_ms = now.move_ms;
      last_timer_check_ms = now.check_ms;
    }

abbrev pub started_result : Readings → WaitingPlayer → ActiveGame → MatchResult
started_result now w game =
    let mine = is_even now.colour_time in
    record {
      status = game_started;
      game_id = some game.game_id;
      assigned_team = if mine then team_white else team_black;
      opponent_fd = if mine then game.black_player_fd else game.white_player_fd;
      opponent_name = some (if mine then w.player_id else game.white_player_id);
      error_message = none;
    }

-- A waiting player was found at place i, and a free game slot at place j.
unfoldable pub start_match :
    Readings
    → ℤ
    → Text
    → MatchManager
    → ℕ
    → WaitingPlayer
    → ℕ
    → ActiveGame
    → MatchManager × MatchResult
start_match now fd player_id m i w j old =
    let game = new_game now fd player_id w m.id_counter old in
    (
      record m {
        waiting_players = set m.waiting_players i (record w { is_active = false });
        active_games = set m.active_games j game;
        waiting_count = m.waiting_count -ℤ pos 1;
        active_game_count = m.active_game_count +ℤ pos 1;
        id_counter = m.id_counter + 1;
      },
      started_result now w game,
    )

abbrev pub waiting_result : MatchResult
waiting_result = record {
  status = waiting;
  game_id = some [];
  assigned_team = team_unspecified;
  opponent_fd = minus_one;
  opponent_name = none;
  error_message = none;
}

unfoldable pub enqueue : Readings → ℤ → Text → MatchManager → ℕ → MatchManager
enqueue now fd player_id m i = record m {
  waiting_players = set m.waiting_players i (record {
    fd = fd;
    player_id = player_id;
    wait_start_time = now.start_time;
    is_active = true;
  });
  waiting_count = m.waiting_count +ℤ pos 1;
}

abbrev pub player_waits : WaitingPlayer → Bool
player_waits w = w.is_active

abbrev pub player_free : WaitingPlayer → Bool
player_free w = not w.is_active

abbrev pub game_runs : ActiveGame → Bool
game_runs g = g.is_active

abbrev pub game_free : ActiveGame → Bool
game_free g = not g.is_active

-- `none` is a player's name too long for its buffer.
unfoldable pub add_named_player :
    Readings → ℤ → Text → MatchManager → Option (MatchManager × MatchResult)
add_named_player now fd player_id m = elim (find_slot player_waits m.waiting_players) [
  | some (i, w) ↦ elim (find_slot game_free m.active_games) [
    | some (j, old) ↦ elim (copy_id player_id) [
      | none ↦ none
      | some _ ↦ elim (copy_id w.player_id) [
        | none ↦ none
        | some _ ↦ some (start_match now fd player_id m i w j old)
      ]
    ]
    | none ↦ some (m, error_result (codes "No available game slots"))
  ]
  | none ↦ elim (find_slot player_free m.waiting_players) [
    | some (i, _) ↦ elim (copy_id player_id) [
      | none ↦ none
      | some _ ↦ some (enqueue now fd player_id m i, waiting_result)
    ]
    | none ↦ some (m, error_result (codes "Matching queue is full"))
  ]
]

unfoldable pub add_player_to_matching :
    Readings → ℤ → Option Text → MatchManager → Option (MatchManager × MatchResult)
add_player_to_matching now fd none m = some (m, error_result (codes "Player ID is null"))
add_player_to_matching now fd (some player_id) m = add_named_player now fd player_id m
