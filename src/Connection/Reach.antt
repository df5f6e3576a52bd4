-- ===== src/Connection/Reach.antt =====
-- The states that the client gets to (client/client_network.c, client/handlers/, client/main.c,
-- client/replay.c): turns of the network thread, rounds of the main loop and replays, in any order.
use mathlib.Core.Path.{subst}
use multiplay_chess.Prelude.{◌≡◌, refl, sym, true, inr, Option, some, List, [], Text}
use multiplay_chess.ClientState.{ClientState, init_client_state}
use multiplay_chess.Handlers.Bounds.{same-IsBounded}
use multiplay_chess.Handlers.Fits.{IsClient, still_texts, same-IsClient, init_client_state-IsClient}
use multiplay_chess.Replay.{Tick, Playing, start_replay}
use multiplay_chess.Screens.{App, Round, loop_round}
use multiplay_chess.Screens.Fits.{loop_round-Well}
use multiplay_chess.Connection.{Thread, Turn, thread_turn, disconnect}
use multiplay_chess.Connection.Link.{
  IsLinked, SameLink, still, same-IsLinked, close_socket-IsLinked, descriptor, thread_turn-IsLinked,
}
use multiplay_chess.Connection.Bounds.{quiet-IsClient, close_socket-IsClient, thread_turn-IsClient}

abbrev pub start_thread : Thread
start_thread = record {
  client = init_client_state;
  first_connect = true;
  out = [];
  closed = [];
  files = [];
}

-- A turn of the network thread; a round of the main loop, whatever its own variables hold; the replay
-- of a file; or the end of the connection.
pub data Happens (n : Thread) : Thread → Type 0 where
  turned : (t : Turn) → Happens n (thread_turn t n)
  looped :
      (r : Round) (a : App)
      → a.desk.client ≡ n.client
      → Happens n (record n { client = (loop_round r a).desk.client })
  replayed :
      (file : Option Text) (ticks : List Tick) (p : Playing)
      → start_replay file ticks n.client.game_state.game ≡ some p
      → Happens n (record n {
        client = record n.client { game_state = record n.client.game_state { game = p.game } };
      })
  ended : Happens n (disconnect n)

pub data Reached : Thread → Type 0 where
  started : Reached start_thread
  later : (n m : Thread) → Reached n → Happens n m → Reached m

-- Both invariants.
pub record IsSafe (n : Thread) : Type 0 where
  pub linked : IsLinked n.client
  pub client : IsClient n.client

-- A client with the connection and the bounded texts of another.
same-IsSafe :
    (n : Thread) (d : ClientState)
    → IsSafe n
    → SameLink d n.client
    → IsClient d
    → IsSafe (record n { client = d })
same-IsSafe n d k same fits = record {
  linked = same-IsLinked d n.client same k.linked;
  client = fits;
}

keeps-IsSafe :
    (n : Thread) (d : ClientState)
    → IsSafe n
    → SameLink d n.client × IsClient d
    → IsSafe (record n { client = d })
keeps-IsSafe n d k (same, fits) = same-IsSafe n d k same fits

disconnect-IsSafe : (n : Thread) → IsSafe n → IsSafe (disconnect n)
unfolding disconnect
disconnect-IsSafe n k = record {
  linked = close_socket-IsLinked _ k.linked.settled refl (descriptor n.client k.linked);
  client =
      close_socket-IsClient _
        (quiet-IsClient n.client _ k.client refl (refl, refl, refl, refl, refl, refl, refl));
}

Happens-IsSafe : (n m : Thread) → Happens n m → IsSafe n → IsSafe m
Happens-IsSafe n m (turned t) k = record {
  linked = thread_turn-IsLinked t n k.linked;
  client = thread_turn-IsClient t n k.client;
}
Happens-IsSafe n m (looped r a same) k =
    let c = a.desk.client in
    let kept = loop_round-Well c r a (still c, subst IsClient (sym same) k.client) in
    keeps-IsSafe n (loop_round r a).desk.client k
      (subst (SameLink (loop_round r a).desk.client) same kept.0, kept.1)
Happens-IsSafe n m (replayed file ticks p e) k =
    let s = n.client.game_state in
    let shown = record s { game = p.game } in
    let d = record n.client { game_state = shown } in
    let b = k.client.bounded in
    keeps-IsSafe n d k (
      still n.client,
      same-IsClient d k.client
          (same-IsBounded b shown (record { size = b.chat.size; within = b.chat.within }) refl refl
            refl refl refl refl refl)
          (still_texts n.client),
    )
Happens-IsSafe n m ended k = disconnect-IsSafe n k

-- In every state that the client gets to, by turns of the network thread, rounds of the main loop and
-- replays in any order: it is connected and holds a descriptor, or it is not and holds none; no
-- reconnection stays pending; and the user's name, the names of the players, every chat message and its
-- sender, the line of chat and its cursor, every recorded move, the result, the texts of dialogs, and
-- the counts are within their arrays.
pub Reached-IsSafe : (n : Thread) → Reached n → IsSafe n
unfolding init_client_state
Reached-IsSafe n started = record {
  linked = record { agree = inr (refl, refl); settled = refl };
  client = init_client_state-IsClient;
}
Reached-IsSafe m (later n _ r h) = Happens-IsSafe n m h (Reached-IsSafe n r)
