-- ===== src/Match/SelfMatch.antt =====
-- A client that asks for a match twice (server/match_manager.c, `add_player_to_matching`).
use multiplay_chess.Prelude.{ℕ, ◌<◌, ◌≡◌, refl, ◌∙◌, true, none, some, get_elem?, length, ℤ, Text}
use multiplay_chess.Protocol.{ProtoTeam}
use multiplay_chess.Match.{
  WaitingPlayer, ActiveGame, MatchManager, MatchResult, Readings, player_waits, player_free,
  game_free, find_slot, enqueue, waiting_result, add_named_player, add_player_to_matching,
}
use multiplay_chess.Match.Slots.{find_slot-some, find_slot-set}
use multiplay_chess.Match.Counts.{IsConsistent, add_player_to_matching-IsConsistent}
use multiplay_chess.Match.Pairing.{
  Seated, newcomer_white, newcomer_black, copy_fits, add_player_matched,
}

both_seats :
    {g : ActiveGame} {fd : ℤ} {id : Text} {w : WaitingPlayer} {t : ProtoTeam}
    → Seated g fd id w t
    → w.fd ≡ fd
    → (g.white_player_fd ≡ fd) × (g.black_player_fd ≡ fd)
both_seats (newcomer_white a _ b _) e = (a, b ∙ e)
both_seats (newcomer_black a _ b _) e = (b ∙ e, a)

-- In a consistent manager where nobody waits and both tables have room, a client with a name that
-- fits its buffer that asks twice is matched with itself: one descriptor holds both seats.
pub self_match :
    (now : Readings) (fd : ℤ) (id : Text) (m : MatchManager) (i j : ℕ) (w : WaitingPlayer)
    (old : ActiveGame)
    → IsConsistent m
    → find_slot player_waits m.waiting_players ≡ none
    → find_slot player_free m.waiting_players ≡ some (i, w)
    → find_slot game_free m.active_games ≡ some (j, old)
    → length id < 64
    → (m₁ : MatchManager) × (m₂ : MatchManager) × (r : MatchResult) × (g : ActiveGame)
      × (add_player_to_matching now fd (some id) m ≡ some (m₁, waiting_result))
      × (add_player_to_matching now fd (some id) m₁ ≡ some (m₂, r))
      × (get_elem? m₂.active_games j ≡ some g)
      × (g.is_active ≡ true)
      × (g.white_player_fd ≡ fd)
      × (g.black_player_fd ≡ fd)
unfolding add_player_to_matching add_named_player enqueue
self_match now fd id m i j w old c nobody free slot short =
    let w₁ : WaitingPlayer = record {
      fd = fd;
      player_id = id;
      wait_start_time = now.start_time;
      is_active = true;
    } in
    let m₁ = enqueue now fd id m i in
    let first : add_player_to_matching now fd (some id) m ≡ some (m₁, waiting_result) =
      rw (nobody, free, add_named_player) (rw (copy_fits id short)) in
    let c₁ = add_player_to_matching-IsConsistent now fd (some id) m c first in
    let (here, _) = find_slot-some player_free m.waiting_players free in
    let waits = find_slot-set player_waits m.waiting_players i w₁ nobody here refl in
    let (m₂, r, second, p) = add_player_matched now fd id m₁ i j w₁ old c₁ waits slot short short in
    let (white, black) = both_seats p.seated refl in
    (m₁, m₂, r, p.game, first, second, p.placed, p.active, white, black)
