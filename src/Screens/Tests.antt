-- ===== src/Screens/Tests.antt =====
-- Runs of the client's main loop (client/main.c).
use multiplay_chess.Prelude.{◌≡◌, refl, true, false, some, List, [], ◌∷◌, pos, codes}
use multiplay_chess.Client.{init_game_state}
use multiplay_chess.ClientState.{screen_game, init_client_state}
use multiplay_chess.Input.{Pressed, backspace, byte, key}
use multiplay_chess.Screens.{App, Round, loop_round, screen_key}
use multiplay_chess.Screens.Dialogs.{
  AtRest, dialogs_left, enter_round, enter_rounds, dialogs_closed,
}
use multiplay_chess.Screens.Typing.{press_keys, opened, chat_line_sent}
use multiplay_chess.Input.Typing.{edit_all}
use multiplay_chess.Protocol.{chat}
use multiplay_chess.Screens.Keys.{menu_work, menu_byte_not_typed}

-- A game that has ended, with the result's dialog open and one for the lost connection to come.
abbrev over : App
over = record {
  desk = record {
    client = record init_client_state {
      connection_lost = true;
      game_end_dialog_pending = true;
      dialog_active = true;
      current_screen = screen_game;
    };
    cursor_x = pos 0;
    cursor_y = pos 0;
    cursor_mode = false;
    requests = [];
  };
  prev_screen = screen_game;
  last_update_time = pos 0;
  files = [];
  running = true;
}

abbrev round : Round
round = record {
  moment = record { now = pos 100; sent = pos 12 };
  disk = record {
    folder_ready = true;
    file_opens = true;
    file_name = codes "g.pgn";
    date = codes "d";
  };
  stop_before = false;
  stop_after = false;
  resized = false;
  input = some (key (byte b'q'));
  name = [];
}

abbrev rounds : List Round
rounds = round ∷ []

two_left : 2 ≡ dialogs_left over.desk.client
unfolding init_client_state init_game_state
two_left = refl

dialogs_closed_example :
    ((enter_rounds rounds over).desk.client.dialog_active ≡ true)
    × AtRest
        (enter_rounds rounds
          (loop_round (enter_round round) (enter_rounds rounds over))).desk.client
dialogs_closed_example = dialogs_closed rounds round rounds over refl refl two_left

-- A line is typed in a game.
abbrev typing : App
typing = record over {
  desk = record over.desk {
    client = record init_client_state {
      connected = true;
      chat_input_mode = true;
      current_screen = screen_game;
    };
  };
}

menu_byte_not_typed_example :
    (screen_key round (byte b'q') screen_game typing ≡ menu_work round b'q' typing)
    × ((screen_key round (byte b'q') screen_game typing).desk.client.chat_input_buffer
        ≡ typing.desk.client.chat_input_buffer)
    × ((screen_key round (byte b'q') screen_game typing).desk.client.chat_input_cursor
        ≡ typing.desk.client.chat_input_cursor)
unfolding init_client_state
menu_byte_not_typed_example = menu_byte_not_typed round b'q' typing refl refl refl

abbrev line : List Pressed
line = byte b'h' ∷ byte b'e' ∷ backspace ∷ byte b'i' ∷ []

chat_line_sent_example :
    ((screen_key round
        (byte b'\n')
        screen_game
        (press_keys round line (opened typing))).desk.requests
      ≡ chat (edit_all line []) ∷ typing.desk.requests)
    × ((screen_key round
          (byte b'\n')
          screen_game
          (press_keys round line (opened typing))).desk.client.chat_input_mode
        ≡ false)
unfolding init_client_state
chat_line_sent_example = chat_line_sent round line typing refl refl refl refl refl
