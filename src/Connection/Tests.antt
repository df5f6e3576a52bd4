-- ===== src/Connection/Tests.antt =====
-- Runs of the client's connection (client/client_network.c).
use multiplay_chess.Prelude.{
  ◌≡◌, refl, true, false, none, some, List, [], ◌∷◌, pos, ◌≤ℤ◌, ◌-ℤ◌, codes, arith,
}
use multiplay_chess.Protocol.{ping_res}
use multiplay_chess.ClientState.{screen_main, init_client_state}
use multiplay_chess.Input.{byte, key}
use multiplay_chess.Screens.{App, Round, loop_round}
use multiplay_chess.Handlers.{Around}
use multiplay_chess.Connection.{
  Address, connect_to_server, Thread, Turn, should_attempt_reconnect, start_reconnect, thread_turn,
}
use multiplay_chess.Connection.Reach.{
  start_thread, Reached, started, later, turned, looped, IsSafe, Reached-IsSafe,
}
use multiplay_chess.Connection.Reconnect.{reconnects}

abbrev around : Around
around = record {
  now = pos 100;
  disk = record {
    folder_ready = true;
    file_opens = true;
    file_name = codes "g.pgn";
    date = codes "d";
  };
  move_timestamp = none;
}

-- The first address refuses, the second is reached on descriptor 4.
abbrev addresses : List Address
addresses =
    record { socket = pos 3; connects = false } ∷ record { socket = pos 4; connects = true } ∷ []

abbrev good_turn : Turn
good_turn = record {
  now = pos 100;
  addresses = some addresses;
  ping_sent = pos 20;
  received = some (ping_res (codes "pong"));
  around = around;
}

-- No name is resolved.
abbrev bad_turn : Turn
bad_turn = record good_turn { now = pos 95; addresses = none }

abbrev waiting : Thread
waiting = thread_turn bad_turn start_thread

waiting-Reached : Reached waiting
waiting-Reached = later start_thread waiting started (turned bad_turn)

off : waiting.client.connected ≡ false
unfolding thread_turn start_reconnect connect_to_server should_attempt_reconnect init_client_state
    ◌-ℤ◌
off = refl

settled : waiting.client.reconnecting ≡ false
unfolding thread_turn start_reconnect connect_to_server should_attempt_reconnect init_client_state
    ◌-ℤ◌
settled = refl

long_ago : pos 5 ≤ℤ (pos 100 -ℤ waiting.client.last_reconnect_attempt)
unfolding thread_turn start_reconnect connect_to_server should_attempt_reconnect init_client_state
    ◌-ℤ◌
long_ago = omega arith

reconnects_example :
    ((thread_turn good_turn waiting).client.connected ≡ true)
    × (pos 0 ≤ℤ (thread_turn good_turn waiting).client.socket_fd)
    × ((thread_turn good_turn waiting).client.last_reconnect_attempt ≡ pos 100)
reconnects_example =
    reconnects waiting good_turn addresses (ping_res (codes "pong")) settled off long_ago refl refl
      (omega arith) refl

-- The user types his name and starts to look for a match.
abbrev menu : App
menu = record {
  desk = record {
    client = waiting.client;
    cursor_x = pos 0;
    cursor_y = pos 0;
    cursor_mode = false;
    requests = [];
  };
  prev_screen = screen_main;
  last_update_time = pos 0;
  files = [];
  running = true;
}

abbrev name_round : Round
name_round = record {
  moment = record { now = pos 96; sent = pos 12 };
  disk = around.disk;
  stop_before = false;
  stop_after = false;
  resized = false;
  input = some (key (byte b'1'));
  name = codes "bob";
}

abbrev named : Thread
named = record waiting { client = (loop_round name_round menu).desk.client }

Reached-IsSafe_example : IsSafe (thread_turn good_turn named)
Reached-IsSafe_example = Reached-IsSafe (thread_turn good_turn named) (
    later named (thread_turn good_turn named)
      (later waiting named waiting-Reached (looped name_round menu refl)) (turned good_turn))
