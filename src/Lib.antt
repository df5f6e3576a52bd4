-- ===== src/Lib.antt =====
-- A verification of multiplay-chess, a chess server and its clients.
--
-- The program. A server keeps a queue of players who wait for an opponent and a table of running
-- games; clients send it protobuf messages over TCP; a thread of its own charges the chess clocks.
-- The rules of chess stand in common/ and are used by the server to judge moves, and by the client
-- to follow them.
--
-- The files.
--   Prelude and below: Boolean tests, lists indexed by native numbers, signed integers with the `int`
--     operations of C (division truncated towards zero, conversion to 32 bits), text as bytes.
--   Piece, Piece/Offsets: common/types.h, common/piece.h, common/piece.c. A piece is the row and the
--     column of `piece_table`; `deref` reads it.
--   Game: `piecestate_t` and `game_t` (common/piece.h, common/rule.h). The board is a function of the
--     rank and the file, in the order of `board[y][x]`.
--   Rule: common/rule.c, a definition for each function and for each loop and paragraph of the long
--     ones, in Check, Apply, Legal and Rule itself. Below it: Moves (what a legal move satisfies), Ending
--     (checkmate, stalemate), Steps (knights and kings), Rays, Slides and Attack (sliding pieces, and
--     the two codings of how pieces go), Pawns, Promotion, Landing, Kings and Sound (the invariant of
--     positions), Rights (castling rights).
--   Fen, Fen/Start, Fen/Reach: common/utils.c; the starting position and the positions reached from it.
--   Coordinate: `parse_chess_coordinate` and `format_chess_coordinate` of server/handlers/move.c.
--   Protocol: common/protocol_utils.c, and the messages of common/proto/message.proto as records.
--   Network: `send_server_message` of common/network.c. What the sockets do is an argument.
--   Match: server/match_manager.h and server/match_manager.c, in State, Joining and Removal; below
--     it Clock (`check_game_timeouts`), Leave (`handle_player_disconnect`), and the proofs: Slots, Positions,
--     Counts, Timeouts, Pairing, SelfMatch.
--   Server: Session (server/handlers/match.c, resign.c, cancel_match.c, chat.c, ping.c, echo.c and
--     `send_error_response`), Turn (server/handlers/move.c), Dispatch (server/handlers/dispatcher.c and
--     `handle_client_message` of server/server_network.c), and the proofs: Verdict (which
--     positions end a game), Outcome, Consistent, Reach.
--   Framing: common/network.c on the level of bytes; below it Sending (`send_all`), Receiving
--     (`recv_all`) and Roundtrip. What the kernel answers is a list that the loops consume.
--   Client: client/game_state.h and client/game_state.c; below it Chat (the buffer of messages), Mirror
--     (the moves taken from the server), Display (the clocks on display).
--   ClientState: client/client_state.h and client/client_state.c.
--   Handlers: client/handlers. Notices (match, cancelled match, chat, error, check, ping, echo, answers to a
--     resignation), Endings (resign.c, disconnect.c), MoveBroadcast (move.c), Dispatch (dispatcher.c),
--     and the proofs: Bounds and Fits (sizes), Resignation.
--   Connection: client/client_network.c; below it the proofs: Link, Bounds, Reach, Reconnect.
--   Input: client/ui/input.c; below it Chat (client/ui/chat.c), Marks (`calculate_possible_moves` of
--     client/ui/game_screen.c), Places (the squares that `draw_chess_board` draws), and the proofs: Line,
--     Typing, Requests, Within.
--   Screens: the loop of client/main.c, a round at a time, with Menu (its keys, and the dialogs of
--     client/ui/core.c), and `update_match_timer` of client/ui/matching_screen.c; proofs: Dialogs, Keys,
--     Typing, and the sizes through a round in DeskFits, KeyFits and Fits.
--   Pgn: client/pgn_save.c and client/game_save.c, the text of a saved game.
--   Replay: client/replay.c; below it the proofs: Lines, Digits, Tokens and Roundtrip (reading back what
--     was written), Recorded, Written and Live (the record and the position), Saved (both together),
--     Player (the loop of `start_replay`).
--   Play: a move from the click on the screen to the server's board and back to both clients; below it
--     Follow (the position that a broadcast move leaves), Clicked (the whole way).
--   Tests and the Tests below the parts, Server/Scenario: runs on concrete games and messages.
--
-- How the parts interact. A client's message goes through `handle_client_message`, which takes the
-- state of the server (the match manager and the messages sent) to the next one; the handlers call
-- the match manager's operations and the rules. `Server.Reach.Reachable` holds the states that
-- messages, disconnections and passes of the clock thread lead to, in any order. On the client, two
-- threads share one state: `thread_turn` takes a message through `dispatch_server_message`, and `loop_round`
-- takes a key or a click through the dialogs and the screens. A request is handed over as the
-- message that the server's handlers take. A move that comes in is applied to the client's copy of
-- the game and written down; the record is what `write_pgn` saves and `load_moves` reads back.
--
-- Bounds and fuel. `ray` takes a turn for each square and a ray leaves the board within eight, so
-- nine turns are enough (Rule.Rays). The castling loops get eight turns and need at most three. `way_clear`
-- counts the turns of its loop. Digits are written with one turn more than the number. The clocks are 32-bit
-- integers, whose wrap-around is written out in `charge`. Names have 64 bytes: a longer one overruns its
-- buffer, and the operation then has no result (`none`). The loops over a file get a turn for each byte
-- and take at least one each, and `read_moves` stops at the 512 places of its array. The loops of the
-- client that run until the user leaves are lists of turns, of any length.
--
-- What is not modelled. Sockets, epoll and generated code: what a send returns is an argument of the
-- model, and a message arrives as a record; so are the answers of `getaddrinfo`, of the disk and of
-- ncurses. Threads: an operation that holds a mutex is one step, and so is the handler of a move on
-- the server, in which the clock thread could come between, and a handler of the client, in which the main
-- loop could. Readings of the clock are arguments. Memory allocation is taken to succeed. Logging, the
-- start of the server, signals, and drawing (colours, the layout of the chat area, the list of
-- saved games in client/ui/replay_menu.c, resizing) are left out.
pub mod Prelude
pub mod Piece
pub mod Game
pub mod Rule
pub mod Fen
pub mod Coordinate
pub mod Protocol
pub mod Match
pub mod Network
pub mod Framing
pub mod Server
pub mod Client
pub mod Pgn
pub mod ClientState
pub mod Handlers
pub mod Connection
pub mod Input
pub mod Screens
pub mod Replay
pub mod Tests
pub mod Play
