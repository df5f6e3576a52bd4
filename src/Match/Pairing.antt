-- ===== src/Match/Pairing.antt =====
-- Who is matched with whom (server/match_manager.c, `add_player_to_matching`).
use multiplay_chess.Prelude.{
  ℕ, ◌+◌, ◌<◌, ◌≡◌, ◌≢◌, refl, inl, inr, true, false, Bool-cases, Option, none, some, Option-cases,
  get_elem?, get_elem?-set_self, length, count, count-set, ℤ, Text, codes, arith, List, [], ◌∷◌,
}
use multiplay_chess.Protocol.{ProtoTeam, team_white, team_black}
use multiplay_chess.Match.{
  WaitingPlayer, ActiveGame, MatchManager, MatchResult, game_started, Readings, time_limit_ms,
  player_waits, player_free, game_free, find_slot, copy_id, is_even, new_game, start_match, enqueue,
  waiting_result, add_named_player, add_player_to_matching,
}
use multiplay_chess.Match.Slots.{find_slot-some, find_slot-none}
use multiplay_chess.Match.Counts.{IsConsistent, after_copy}

-- Two players at one board, each with his own colour.
pub data Seated (g : ActiveGame) (fd : ℤ) (id : Text) (w : WaitingPlayer) : ProtoTeam → Type 0 where
  newcomer_white :
      g.white_player_fd ≡ fd
      → g.white_player_id ≡ id
      → g.black_player_fd ≡ w.fd
      → g.black_player_id ≡ w.player_id
      → Seated g fd id w team_white
  newcomer_black :
      g.black_player_fd ≡ fd
      → g.black_player_id ≡ id
      → g.white_player_fd ≡ w.fd
      → g.white_player_id ≡ w.player_id
      → Seated g fd id w team_black

-- What a match leaves behind and answers.
pub record Paired (fd : ℤ) (id : Text) (w : WaitingPlayer) (j : ℕ) (m' : MatchManager)
    (r : MatchResult) : Type 0 where
  pub game : ActiveGame
  pub placed : get_elem? m'.active_games j ≡ some game
  pub active : game.is_active ≡ true
  pub seated : Seated game fd id w r.assigned_team
  pub white_clock : game.white_time_remaining ≡ time_limit_ms
  pub black_clock : game.black_time_remaining ≡ time_limit_ms
  pub started : r.status ≡ game_started
  pub same_game : r.game_id ≡ some game.game_id
  pub opponent : r.opponent_fd ≡ w.fd
  pub opponent_known : r.opponent_name ≡ some w.player_id
  pub nobody_waits : count player_waits m'.waiting_players ≡ 0

pub copy_fits : (id : Text) → length id < 64 → copy_id id ≡ some id
copy_fits id h = ground arith

free_or_waits : (xs : List WaitingPlayer) → count player_free xs + count player_waits xs ≡ length xs
free_or_waits [] = refl
free_or_waits (x ∷ xs) = ground (arith, free_or_waits xs)

module _ (now : Readings) (fd : ℤ) (id : Text) (m : MatchManager) where
  start_match-Paired :
      (i j : ℕ) (w : WaitingPlayer) (old : ActiveGame)
      → IsConsistent m
      → find_slot player_waits m.waiting_players ≡ some (i, w)
      → find_slot game_free m.active_games ≡ some (j, old)
      → Paired fd id w j (start_match now fd id m i w j old).0 (start_match now fd id m i w j old).1
  unfolding start_match new_game
  start_match-Paired i j w old c fw fg =
      let (hw, tw) = find_slot-some player_waits m.waiting_players fw in
      let (hg, tg) = find_slot-some game_free m.active_games fg in
      let n = count-set player_waits m.waiting_players i w (record w { is_active = false }) hw in
      let g = new_game now fd id w m.id_counter old in
      record {
        game = g;
        placed = get_elem?-set_self m.active_games j g hg;
        active = refl;
        seated = elim (Bool-cases (is_even now.colour_time)) [
          | inl even ↦ rw even (newcomer_white refl refl refl refl)
          | inr odd ↦ rw odd (newcomer_black refl refl refl refl)
        ];
        white_clock = refl;
        black_clock = refl;
        started = refl;
        same_game = refl;
        opponent = ground arith;
        opponent_known = ground arith;
        nobody_waits = ground (arith, c.one_waits);
      }

  -- A player who asks while another one waits and a game slot is free is matched with him, if both
  -- names fit their buffers: the slot holds an active game with one of them as White and the other
  -- as Black and full clocks, the answer names that game, the newcomer's colour and his opponent,
  -- and nobody waits any more.
  pub add_player_matched :
      (i j : ℕ) (w : WaitingPlayer) (old : ActiveGame)
      → IsConsistent m
      → find_slot player_waits m.waiting_players ≡ some (i, w)
      → find_slot game_free m.active_games ≡ some (j, old)
      → length id < 64
      → length w.player_id < 64
      → (m' : MatchManager) × (r : MatchResult) × (add_player_to_matching now fd (some id) m
          ≡ some (m', r))
        × Paired fd id w j m' r
  unfolding add_player_to_matching add_named_player
  add_player_matched i j w old c fw fg short short' =
      let mr = start_match now fd id m i w j old in
      (
        mr.0,
        mr.1,
        rw (fw, fg, add_named_player) (rw (copy_fits id short) (rw (copy_fits w.player_id short'))),
        start_match-Paired i j w old c fw fg,
      )

  abbrev full_text : Text
  full_text = codes "Matching queue is full"

  abbrev NotFull : Option (MatchManager × MatchResult) → Type 0
  NotFull none = Unit
  NotFull (some (m', r)) = r.error_message ≢ some full_text

  add_named_player-NotFull : IsConsistent m → NotFull (add_named_player now fd id m)
  unfolding add_named_player start_match
  add_named_player-NotFull c = elim (Option-cases (find_slot player_waits m.waiting_players)) [
    | inr ((i, w), fw) ↦ elim (Option-cases (find_slot game_free m.active_games)) [
      | inr ((j, old), fg) ↦
          rw (fw, fg, add_named_player)
            (after_copy NotFull id _ tt (
              after_copy NotFull w.player_id (some (start_match now fd id m i w j old)) tt
                (λ e. cc)))
      | inl busy ↦ rw (fw, busy, add_named_player) (λ e. ground arith)
    ]
    | inl nobody ↦ elim (Option-cases (find_slot player_free m.waiting_players)) [
      | inr ((i, w), fw) ↦
          rw (nobody, fw, add_named_player)
            (after_copy NotFull id (some (enqueue now fd id m i, waiting_result)) tt (λ e. cc))
      | inl full ↦
          let none_free = find_slot-none player_free m.waiting_players full in
          let none_waits = find_slot-none player_waits m.waiting_players nobody in
          absurd (omega (arith, free_or_waits m.waiting_players, c.waiting_size))
    ]
  ]

  -- A consistent manager does not answer a request for a match that its queue is full.
  pub never_full :
      {m' : MatchManager} {r : MatchResult}
      → IsConsistent m
      → add_player_to_matching now fd (some id) m ≡ some (m', r)
      → r.error_message ≢ some (codes "Matching queue is full")
  unfolding add_player_to_matching
  never_full c h = rw h at (add_named_player-NotFull c)
