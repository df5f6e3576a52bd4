-- ===== src/Match/Tests.antt =====
-- The match manager on the states of a run (server/match_manager.c).
use multiplay_chess.Prelude.{◌≡◌, ◌≢◌, refl, true, none, some, get_elem?, pos, codes, arith, Text}
use multiplay_chess.Match.{
  WaitingPlayer, ActiveGame, MatchManager, MatchResult, init_match_manager, find_slot, start_match,
  add_player_to_matching, player_waits, player_free, game_free, no_game, no_player, waiting_result,
}
use multiplay_chess.Match.Clock.{tick, running}
use multiplay_chess.Match.Counts.{cleared-IsConsistent}
use multiplay_chess.Match.Timeouts.{tick_lem, with_clock}
use multiplay_chess.Match.Pairing.{Paired, add_player_matched, never_full}
use multiplay_chess.Match.SelfMatch.{self_match}
use multiplay_chess.Server.Reach.{Reachable-IsConsistent}
use multiplay_chess.Server.Scenario.{
  running_server, noon, ann_waits, both_play, first_game, reach_ann,
}

-- The managers of these states, and what the requests lead to.
abbrev ann : WaitingPlayer
ann = record { fd = pos 5; player_id = codes "ann"; wait_start_time = pos 43200; is_active = true }

ann_found : find_slot player_waits ann_waits.manager.waiting_players ≡ some (0, ann)
unfolding running_server
ann_found = refl

slot_found : find_slot game_free ann_waits.manager.active_games ≡ some (0, no_game)
unfolding running_server
slot_found = refl

abbrev bob : Text
bob = codes "bob"

add_player_matched_example :
    (m' : MatchManager) × (r : MatchResult) × (add_player_to_matching noon
        (pos 6)
        (some bob)
        ann_waits.manager
      ≡ some (m', r))
    × Paired (pos 6) bob ann 0 m' r
add_player_matched_example =
    add_player_matched noon (pos 6) bob ann_waits.manager 0 0 ann no_game
      (Reachable-IsConsistent reach_ann) ann_found slot_found (omega arith) (omega arith)

bob_added :
    add_player_to_matching noon (pos 6) (some bob) ann_waits.manager
    ≡ some (start_match noon (pos 6) bob ann_waits.manager 0 ann 0 no_game)
unfolding running_server
bob_added = refl

never_full_example :
    (start_match noon (pos 6) bob ann_waits.manager 0 ann 0 no_game).1.error_message
    ≢ some (codes "Matching queue is full")
never_full_example =
    never_full noon (pos 6) bob ann_waits.manager (Reachable-IsConsistent reach_ann) bob_added

-- One descriptor asks twice.
nobody_found : find_slot player_waits init_match_manager.waiting_players ≡ none
unfolding running_server
nobody_found = refl

place_found : find_slot player_free init_match_manager.waiting_players ≡ some (0, no_player)
unfolding running_server
place_found = refl

first_slot : find_slot game_free init_match_manager.active_games ≡ some (0, no_game)
unfolding running_server
first_slot = refl

self_match_example :
    (m₁ : MatchManager) × (m₂ : MatchManager) × (r : MatchResult) × (g : ActiveGame)
    × (add_player_to_matching noon (pos 7) (some bob) init_match_manager
        ≡ some (m₁, waiting_result))
    × (add_player_to_matching noon (pos 7) (some bob) m₁ ≡ some (m₂, r))
    × (get_elem? m₂.active_games 0 ≡ some g)
    × (g.is_active ≡ true)
    × (g.white_player_fd ≡ pos 7)
    × (g.black_player_fd ≡ pos 7)
self_match_example =
    self_match noon (pos 7) bob init_match_manager 0 0 no_player no_game (cleared-IsConsistent 1)
      nobody_found place_found first_slot (omega arith)

-- Bob's clock, a second after the game began.
tick_lem_example :
    tick (pos 43201000) (first_game both_play)
    ≡ running (with_clock (pos 599000) (pos 43201000) (first_game both_play))
unfolding running_server
tick_lem_example =
    tick_lem (pos 43201000) (first_game both_play) 600000 1000 refl refl (omega arith) refl
      (omega arith) (omega arith)
