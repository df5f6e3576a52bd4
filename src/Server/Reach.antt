-- ===== src/Server/Reach.antt =====
-- The server as a whole: the messages of its clients (server/server_network.c), the clients that go
-- away, and the passes of the clock thread (server/match_manager.c), in any order.
use multiplay_chess.Prelude.{ℕ, ◌≡◌, true, Option, some, [], get_elem?, ℤ}
use multiplay_chess.Protocol.{ClientMessage}
use multiplay_chess.Network.{Net}
use multiplay_chess.Match.{ActiveGame, Readings, init_match_manager}
use multiplay_chess.Match.Clock.{check_game_timeouts}
use multiplay_chess.Match.Counts.{IsConsistent, cleared-IsConsistent}
use multiplay_chess.Match.Timeouts.{check_game_timeouts-IsConsistent}
use multiplay_chess.Rule.Sound.{IsSound}
use multiplay_chess.Fen.Reach.{Reached-IsSound}
use multiplay_chess.Server.Session.{Server}
use multiplay_chess.Server.Dispatch.{handle_client_message}
use multiplay_chess.Server.Consistent.{handle_client_message-IsConsistent}

abbrev pub start_server : Server
start_server = record { manager = init_match_manager; out = [] }

-- A pass of the clock thread.
abbrev pub clock_pass : ℤ → Server → Server
clock_pass now s =
    let checked = check_game_timeouts now s.manager s.out in
    record { manager = checked.0; out = checked.1 }

-- The states that the server gets to, whatever the network does, whatever the clock says, and in
-- whatever order clients and the clock thread come.
pub data Reachable : Server → Type 0 where
  started : Reachable start_server
  client_step :
      (net : Net) (now : Readings) (fd : ℤ) (msg : Option ClientMessage) (s s' : Server)
      → Reachable s
      → handle_client_message net now fd msg s ≡ some s'
      → Reachable s'
  clock_step : (now : ℤ) (s : Server) → Reachable s → Reachable (clock_pass now s)

-- In every reachable state of the server the match manager is consistent: the tables have their
-- sizes, the two counters count, at most one player waits, and every running game stands at a
-- position that legal moves lead to from the starting position.
pub Reachable-IsConsistent : {s : Server} → Reachable s → IsConsistent s.manager
Reachable-IsConsistent started = cleared-IsConsistent 1
Reachable-IsConsistent (client_step net now fd msg s s' r h) =
    handle_client_message-IsConsistent net now fd msg s (Reachable-IsConsistent r) h
Reachable-IsConsistent (clock_step now s r) =
    check_game_timeouts-IsConsistent now s.manager s.out (Reachable-IsConsistent r)

-- In every reachable state of the server, every running game is sound: each team has one king on
-- the board, the side that has just moved is not in check, and a piece that may be taken stands
-- before the en passant square.
pub Reachable-IsSound :
    {s : Server} (k : ℕ) (g : ActiveGame)
    → Reachable s
    → get_elem? s.manager.active_games k ≡ some g
    → g.is_active ≡ true
    → IsSound g.game_state
Reachable-IsSound k g r here live =
    Reached-IsSound ((Reachable-IsConsistent r).positions k g here live)
