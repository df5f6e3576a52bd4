-- ===== src/Match/Counts.antt =====
-- The counters, the queue and the table of games of server/match_manager.c, over its operations.
use multiplay_chess.Prelude.{
  ℕ, ltb, ◌≤◌, ◌≡◌, refl, Bool, true, false, Bool-cases, Option, none, some, Option-cases,
  get_elem?, length, length-set, count, count-set, ℤ, pos, ◌+ℤ◌, ◌-ℤ◌, Text, inl, inr, arith, ◌∙◌,
}
use multiplay_chess.Match.{
  WaitingPlayer, ActiveGame, MatchManager, MatchResult, Readings, max_waiting_players,
  max_active_games, player_waits, player_free, game_runs, game_free, find_slot, copy_id, new_game,
  start_match, enqueue, add_named_player, add_player_to_matching, waiting_result, waits_on,
  drop_waiting, remove_player_from_matching, plays_on, end_game, has_id, remove_game, cleared,
}
use multiplay_chess.Fen.Reach.{at_start}
use multiplay_chess.Match.Positions.{Positions, Positions-set, Positions-none}
use multiplay_chess.Match.Slots.{find_slot-some, find_slot-none}
use multiplay_chess.Match.Leave.{handle_player_disconnect}
use multiplay_chess.Network.{Outbox}

-- The tables have their sizes, the counters count, and at most one player waits.
pub record IsConsistent (m : MatchManager) : Type 0 where
  pub waiting_size : length m.waiting_players ≡ max_waiting_players
  pub games_size : length m.active_games ≡ max_active_games
  pub waiting_exact : m.waiting_count ≡ pos (count player_waits m.waiting_players)
  pub games_exact : m.active_game_count ≡ pos (count game_runs m.active_games)
  pub one_waits : count player_waits m.waiting_players ≤ 1
  pub positions : Positions m.active_games

-- The manager is consistent at start-up.
pub cleared-IsConsistent : (n : ℕ) → IsConsistent (cleared n)
unfolding cleared
cleared-IsConsistent n = record {
  waiting_size = refl;
  games_size = refl;
  waiting_exact = refl;
  games_exact = refl;
  one_waits = omega arith;
  positions = Positions-none max_active_games;
}

start_match-IsConsistent :
    (now : Readings) (fd : ℤ) (id : Text) (m : MatchManager) (i j : ℕ) (w : WaitingPlayer)
    (old : ActiveGame)
    → IsConsistent m
    → find_slot player_waits m.waiting_players ≡ some (i, w)
    → find_slot game_free m.active_games ≡ some (j, old)
    → IsConsistent (start_match now fd id m i w j old).0
unfolding start_match new_game ◌+ℤ◌ ◌-ℤ◌
start_match-IsConsistent now fd id m i j w old c fw fg =
    let (hw, tw) = find_slot-some player_waits m.waiting_players fw in
    let (hg, tg) = find_slot-some game_free m.active_games fg in
    let game = new_game now fd id w m.id_counter old in
    let nw = count-set player_waits m.waiting_players i w (record w { is_active = false }) hw in
    let ng = count-set game_runs m.active_games j old game hg in
    record {
      waiting_size = length-set m.waiting_players i _ ∙ c.waiting_size;
      games_size = length-set m.active_games j _ ∙ c.games_size;
      waiting_exact = ground (arith, c.waiting_exact);
      games_exact = ground (arith, c.games_exact);
      one_waits = ground (arith, c.one_waits);
      positions = Positions-set m.active_games j game c.positions (λ _. at_start old.game_state);
    }

enqueue-IsConsistent :
    (now : Readings) (fd : ℤ) (id : Text) (m : MatchManager) (i : ℕ) (w : WaitingPlayer)
    → IsConsistent m
    → find_slot player_waits m.waiting_players ≡ none
    → find_slot player_free m.waiting_players ≡ some (i, w)
    → IsConsistent (enqueue now fd id m i)
unfolding enqueue ◌+ℤ◌
enqueue-IsConsistent now fd id m i w c nobody fw =
    let (hw, tw) = find_slot-some player_free m.waiting_players fw in
    let zero_wait = find_slot-none player_waits m.waiting_players nobody in
    let nw =
      count-set player_waits m.waiting_players i w
        (record { fd = fd; player_id = id; wait_start_time = now.start_time; is_active = true })
        hw in
    record {
      waiting_size = length-set m.waiting_players i _ ∙ c.waiting_size;
      games_size = c.games_size;
      waiting_exact = ground (arith, c.waiting_exact);
      games_exact = c.games_exact;
      one_waits = ground arith;
      positions = c.positions;
    }

drop_waiting-IsConsistent :
    (fd : ℤ) (m : MatchManager) (i : ℕ) (w : WaitingPlayer)
    → IsConsistent m
    → find_slot (waits_on fd) m.waiting_players ≡ some (i, w)
    → IsConsistent (drop_waiting m i w)
unfolding drop_waiting ◌-ℤ◌
drop_waiting-IsConsistent fd m i w c fw =
    let (hw, tw) = find_slot-some (waits_on fd) m.waiting_players fw in
    let nw = count-set player_waits m.waiting_players i w (record w { is_active = false }) hw in
    record {
      waiting_size = length-set m.waiting_players i _ ∙ c.waiting_size;
      games_size = c.games_size;
      waiting_exact = ground (arith, c.waiting_exact);
      games_exact = c.games_exact;
      one_waits = ground (arith, c.one_waits);
      positions = c.positions;
    }

pub end_game-IsConsistent :
    (m : MatchManager) (j : ℕ) (g : ActiveGame)
    → IsConsistent m
    → get_elem? m.active_games j ≡ some g
    → g.is_active ≡ true
    → IsConsistent (end_game m j g)
unfolding end_game ◌-ℤ◌
end_game-IsConsistent m j g c hg tg =
    let ng = count-set game_runs m.active_games j g (record g { is_active = false }) hg in
    record {
      waiting_size = c.waiting_size;
      games_size = length-set m.active_games j _ ∙ c.games_size;
      waiting_exact = c.waiting_exact;
      games_exact = ground (arith, c.games_exact);
      one_waits = c.one_waits;
      positions = Positions-set m.active_games j _ c.positions (λ live. absurd (cc));
    }

find_end-IsConsistent :
    (test : ActiveGame → Bool) (m : MatchManager) (j : ℕ) (g : ActiveGame)
    → ((g : ActiveGame) → test g ≡ true → g.is_active ≡ true)
    → IsConsistent m
    → find_slot test m.active_games ≡ some (j, g)
    → IsConsistent (end_game m j g)
find_end-IsConsistent test m j g live c found =
    let (hg, tg) = find_slot-some test m.active_games found in
    end_game-IsConsistent m j g c hg (live g tg)

abbrev Keeps : Option (MatchManager × MatchResult) → Type 0
Keeps none = Unit
Keeps (some (m, r)) = IsConsistent m

-- A name is copied or overruns its buffer.
pub after_copy :
    (P : Option (MatchManager × MatchResult) → Type 0) (id : Text)
    (k : Option (MatchManager × MatchResult))
    → P none
    → P k
    → P (elim (copy_id id) [ none ↦ none | some _ ↦ k ])
after_copy P id k over h = elim (Bool-cases (ltb (length id) 64)) [
  | inl t ↦ rw t h
  | inr f ↦ rw f over
]

add_named_player-Keeps :
    (now : Readings) (fd : ℤ) (id : Text) (m : MatchManager)
    → IsConsistent m
    → Keeps (add_named_player now fd id m)
unfolding add_named_player
add_named_player-Keeps now fd id m c =
    elim (Option-cases (find_slot player_waits m.waiting_players)) [
      | inr ((i, w), fw) ↦ elim (Option-cases (find_slot game_free m.active_games)) [
        | inr ((j, old), fg) ↦
            rw (fw, fg, add_named_player)
              (after_copy Keeps id _ tt (
                after_copy Keeps w.player_id (some (start_match now fd id m i w j old)) tt
                  (start_match-IsConsistent now fd id m i j w old c fw fg)))
        | inl full ↦ rw (fw, full, add_named_player) c
      ]
      | inl nobody ↦ elim (Option-cases (find_slot player_free m.waiting_players)) [
        | inr ((i, w), fw) ↦
            rw (nobody, fw, add_named_player)
              (after_copy Keeps id (some (enqueue now fd id m i, waiting_result)) tt
                (enqueue-IsConsistent now fd id m i w c nobody fw))
        | inl full ↦ rw (nobody, full, add_named_player) c
      ]
    ]

add_player_to_matching-Keeps :
    (now : Readings) (fd : ℤ) (id : Option Text) (m : MatchManager)
    → IsConsistent m
    → Keeps (add_player_to_matching now fd id m)
unfolding add_player_to_matching
add_player_to_matching-Keeps now fd none m c = c
add_player_to_matching-Keeps now fd (some id) m c = add_named_player-Keeps now fd id m c

-- A player who asks for a match, whether he waits, is matched, or is refused, leaves the manager
-- consistent.
pub add_player_to_matching-IsConsistent :
    (now : Readings) (fd : ℤ) (id : Option Text) (m : MatchManager) {m' : MatchManager}
    {r : MatchResult}
    → IsConsistent m
    → add_player_to_matching now fd id m ≡ some (m', r)
    → IsConsistent m'
add_player_to_matching-IsConsistent now fd id m c h =
    rw h at (add_player_to_matching-Keeps now fd id m c)

-- Leaving the queue keeps the manager consistent.
pub remove_player_from_matching-IsConsistent :
    (fd : ℤ) (m : MatchManager) → IsConsistent m → IsConsistent (remove_player_from_matching fd m).1
unfolding remove_player_from_matching
remove_player_from_matching-IsConsistent fd m c =
    elim (Option-cases (find_slot (waits_on fd) m.waiting_players)) [
      | inl absent ↦ rw (absent, remove_player_from_matching) c
      | inr ((i, w), fw) ↦
          rw (fw, remove_player_from_matching) (drop_waiting-IsConsistent fd m i w c fw)
    ]

-- Removing a game keeps the manager consistent, whether the game is there or not.
pub remove_game-IsConsistent :
    (id : Option Text) (m : MatchManager) → IsConsistent m → IsConsistent (remove_game id m).1
unfolding remove_game
remove_game-IsConsistent none m c = c
remove_game-IsConsistent (some id) m c =
    elim (Option-cases (find_slot (has_id id) m.active_games)) [
      | inl absent ↦ rw (absent, remove_game) c
      | inr ((j, g), fg) ↦
          rw (fg, remove_game) (find_end-IsConsistent (has_id id) m j g (λ g h. ground arith) c fg)
    ]

-- A client that goes away, from the queue, from a game or from neither, leaves the manager
-- consistent.
pub handle_player_disconnect-IsConsistent :
    (fd : ℤ) (m : MatchManager) (out : Outbox)
    → IsConsistent m
    → IsConsistent (handle_player_disconnect fd m out).manager
unfolding handle_player_disconnect
handle_player_disconnect-IsConsistent fd m out c =
    elim (Option-cases (find_slot (waits_on fd) m.waiting_players)) [
      | inr ((i, w), fw) ↦
          rw (fw, handle_player_disconnect) (drop_waiting-IsConsistent fd m i w c fw)
      | inl idle ↦ elim (Option-cases (find_slot (plays_on fd) m.active_games)) [
        | inl absent ↦ rw (idle, absent, handle_player_disconnect) c
        | inr ((j, g), fg) ↦
            rw (idle, fg, handle_player_disconnect)
              (find_end-IsConsistent (plays_on fd) m j g (λ g h. ground arith) c fg)
      ]
    ]
