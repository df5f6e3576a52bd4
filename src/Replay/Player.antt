-- ===== src/Replay/Player.antt =====
-- The player of a replay (client/replay.c, `start_replay`): the position and the move on display.
use multiplay_chess.Prelude.{
  ◌≡◌, refl, sym, ap, ◌∙◌, Bool-cases, Option-cases, true, inl, inr, Option, some, some-injective,
  List, [], ◌∷◌, length, ℤ, pos, minus_one, ◌+ℤ◌, ◌-ℤ◌, ◌≤ℤ◌, ◌<ℤ◌, +ℤ_parts, -ℤ_parts, leb_ℤ, ◌==◌,
  ◌||◌, arith, Text,
}
use multiplay_chess.Game.{Game}
use multiplay_chess.Client.{reset_game_to_starting_position}
use multiplay_chess.Replay.{
  load_moves, play_moves, turns_to, replay_to_move, Key, key_up, key_down, key, Tick, Playing,
  has_next, go_to, auto_step, forward_step, due, on_key, key_step, play, start_replay,
}

-- The move on display is -1, before the first, or one of the moves; the position is the one that
-- these moves lead to from the start.
pub record IsPlaying (moves : List Text) (p : Playing) : Type 0 where
  pub same_moves : p.replay.moves ≡ moves
  pub lowest : minus_one ≤ℤ p.replay.current_move
  pub highest : p.replay.current_move <ℤ pos (length moves)
  pub before : Game
  pub in_step :
      p.game
      ≡ play_moves (turns_to p.replay.current_move) moves (reset_game_to_starting_position before)

module _ {moves : List Text} where
  go_to-IsPlaying :
      (target : ℤ) (p : Playing)
      → IsPlaying moves p
      → minus_one ≤ℤ target
      → target <ℤ pos (length moves)
      → IsPlaying moves (go_to target p)
  unfolding go_to replay_to_move
  go_to-IsPlaying target p k low high = record {
    same_moves = k.same_moves;
    lowest = low;
    highest = high;
    before = p.game;
    in_step =
        ap (λ ms. play_moves (turns_to target) ms (reset_game_to_starting_position p.game))
          k.same_moves;
  }

  -- What changes neither the move nor the position keeps them in step.
  same-IsPlaying :
      {p : Playing} (q : Playing)
      → IsPlaying moves p
      → q.replay.moves ≡ p.replay.moves
      → q.replay.current_move ≡ p.replay.current_move
      → q.game ≡ p.game
      → IsPlaying moves q
  same-IsPlaying q k ms at position = record {
    same_moves = ms ∙ k.same_moves;
    lowest = rw at k.lowest;
    highest = rw at k.highest;
    before = k.before;
    in_step =
        position
        ∙ (k.in_step
            ∙ ap (λ n. play_moves (turns_to n) moves (reset_game_to_starting_position k.before))
                (sym at));
  }

  next-IsPlaying :
      (p : Playing)
      → IsPlaying moves p
      → has_next p.replay ≡ true
      → IsPlaying moves (go_to (p.replay.current_move +ℤ pos 1) p)
  next-IsPlaying p k more =
      let n : length p.replay.moves ≡ length moves = ap length k.same_moves in
      let low = k.lowest in
      go_to-IsPlaying _ p k (ground (arith, +ℤ_parts p.replay.current_move (pos 1))) (
        ground (
          arith,
          +ℤ_parts p.replay.current_move (pos 1),
          -ℤ_parts (pos (length p.replay.moves)) (pos 1),
        ))

  forward_step-IsPlaying : (p : Playing) → IsPlaying moves p → IsPlaying moves (forward_step p)
  forward_step-IsPlaying p k = elim (Bool-cases (has_next p.replay)) [
    | inl more ↦ rw more (same-IsPlaying _ (next-IsPlaying p k more) refl refl refl)
    | inr last ↦ rw last k
  ]

  back_step-IsPlaying :
      (p : Playing)
      → IsPlaying moves p
      → leb_ℤ (pos 0) p.replay.current_move ≡ true
      → IsPlaying moves (go_to (p.replay.current_move -ℤ pos 1) p)
  back_step-IsPlaying p k h =
      let low = k.lowest in
      let high = k.highest in
      go_to-IsPlaying _ p k (ground (arith, -ℤ_parts p.replay.current_move (pos 1)))
        (ground (arith, -ℤ_parts p.replay.current_move (pos 1)))

  auto_step-IsPlaying :
      (t : Tick) (p : Playing) → IsPlaying moves p → IsPlaying moves (auto_step t p)
  unfolding auto_step
  auto_step-IsPlaying t p k = elim (Bool-cases (due t p.replay)) [
    | inl now ↦ rw now (same-IsPlaying _ (next-IsPlaying p k (ground arith)) refl refl refl)
    | inr later ↦ rw later k
  ]

  -- A key leaves the loop or a player in step.
  on_key-IsPlaying :
      (t : Tick) (k : Key) (p q : Playing)
      → IsPlaying moves p
      → on_key t k p ≡ some q
      → IsPlaying moves q
  unfolding on_key
  on_key-IsPlaying t key_up p q k h = elim (Bool-cases (leb_ℤ (pos 0) p.replay.current_move)) [
    | inl moved ↦
        rw (← some-injective h, moved)
          (same-IsPlaying _ (back_step-IsPlaying p k moved) refl refl refl)
    | inr start ↦ rw (← some-injective h, start) k
  ]
  on_key-IsPlaying t key_down p q k h = rw (← some-injective h) (forward_step-IsPlaying p k)
  on_key-IsPlaying t (key c) p q k h = elim (Bool-cases ((c == b'q') || (c == b'Q') || (c == 27))) [
    | inl quit ↦ absurd (ground arith)
    | inr goes_on ↦ elim (Bool-cases (c == b'\n')) [
      | inl enter ↦ rw (← some-injective (rw (goes_on, enter) at h)) (forward_step-IsPlaying p k)
      | inr other ↦ elim (Bool-cases (c == b' ')) [
        | inl space ↦
            rw (← some-injective (rw (goes_on, other, space) at h))
              (same-IsPlaying _ k refl refl refl)
        | inr none_of_them ↦ rw (← some-injective (rw (goes_on, other, none_of_them) at h)) k
      ]
    ]
  ]

  key_step-IsPlaying :
      (t : Tick) (p q : Playing) → IsPlaying moves p → key_step t p ≡ some q → IsPlaying moves q
  unfolding on_key
  key_step-IsPlaying t p q k h = elim (Option-cases t.pressed) [
    | inl nothing ↦ rw (← some-injective (rw nothing at h)) k
    | inr (pressed, e) ↦ on_key-IsPlaying t pressed p q k (rw e at h)
  ]

  play-IsPlaying :
      (ticks : List Tick) (p : Playing) → IsPlaying moves p → IsPlaying moves (play ticks p)
  unfolding play auto_step
  play-IsPlaying [] p k = k
  play-IsPlaying (t ∷ ticks) p k =
      let k' = auto_step-IsPlaying t p k in
      elim (Bool-cases t.shutdown_requested) [
        | inl asked ↦ rw asked k'
        | inr goes_on ↦ elim (Option-cases (key_step t (auto_step t p))) [
          | inl quit ↦ rw (goes_on, quit) k'
          | inr (q, e) ↦
              rw (goes_on, e) (play-IsPlaying ticks q (key_step-IsPlaying t (auto_step t p) q k' e))
        ]
      ]

-- Through any turns of the player, from a file with moves: the move on display stays between -1 and
-- the last one, and the position is that of the moves up to it, played from the start.
pub start_replay-IsPlaying :
    (file : Option Text) (ticks : List Tick) (g : Game) (p : Playing)
    → start_replay file ticks g ≡ some p
    → IsPlaying (load_moves file) p
unfolding start_replay play_moves
start_replay-IsPlaying file ticks g p h = elim (Bool-cases (length (load_moves file) == 0)) [
  | inl empty ↦ absurd (ground arith)
  | inr some_moves ↦ rw (← some-injective (rw some_moves at h)) (
      play-IsPlaying ticks _ (record {
        same_moves = refl;
        lowest = omega arith;
        highest = ground arith;
        before = g;
        in_step = refl;
      }))
]
