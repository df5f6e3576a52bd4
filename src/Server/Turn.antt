-- ===== src/Server/Turn.antt =====
-- The handler of a move (server/handlers/move.c). The whole handler is one step: a pass of the clocks
-- that falls between its parts is not modelled. Logging is left out.
use multiplay_chess.Prelude.{
  ℕ, Bool, true, false, if◌then◌else◌, Option, none, some, [], ◌∷◌, ◌++◌, set, ℤ, pos, minus_one,
  div_ℤ, ◌==ℤ◌, Text, codes,
}
use multiplay_chess.Piece.{Team, white, black, team_eq}
use multiplay_chess.Game.{Game}
use multiplay_chess.Rule.{
  is_move_legal, apply_move, is_in_check, is_checkmate, is_stalemate, is_fifty_move_rule,
}
use multiplay_chess.Coordinate.{parse_chess_coordinate}
use multiplay_chess.Protocol.{
  ProtoTeam, team_unspecified, team_white, team_black, pt_none, GameEndType, end_unknown,
  end_checkmate, end_stalemate, end_draw, MoveRequest, ClientMessage, move, ServerMessage, move_res,
  move_broadcast,
}
use multiplay_chess.Network.{Net, notify, failed}
use multiplay_chess.Match.{ActiveGame, find_game_by_player_fd, remove_game, decimal_ℤ}
use multiplay_chess.Server.Session.{Server, reply}

unfoldable pub send_move_error : Net → ℤ → Text → Text → Text → Server → ℤ × Server
send_move_error net fd game_id player_id message s =
    reply net fd
      (move_res (record {
        game_id = game_id;
        player_id = player_id;
        success = false;
        message = message;
        updated_fen = [];
      }))
      s

unfoldable pub send_move_success : Net → ℤ → Text → Text → Text → Server → ℤ × Server
send_move_success net fd game_id player_id fen s =
    reply net fd
      (move_res (record {
        game_id = game_id;
        player_id = player_id;
        success = true;
        message = codes "Move successful";
        updated_fen = fen;
      }))
      s

-- How the game stands after a move.
pub record Verdict : Type 0 where
  pub game_ends : Bool
  pub winner_team : ProtoTeam
  pub end_type : GameEndType
  pub is_check : Bool
  pub checked_team : ProtoTeam

abbrev pub proto_of : Team → ProtoTeam
proto_of white = team_white
proto_of black = team_black

abbrev pub opponent_proto : Team → ProtoTeam
opponent_proto white = team_black
opponent_proto black = team_white

abbrev judge : Game → Bool → ProtoTeam → GameEndType → Verdict
judge g over winner how =
    let check = is_in_check g g.side_to_move in
    record {
      game_ends = over;
      winner_team = winner;
      end_type = how;
      is_check = check;
      checked_team = if check then proto_of g.side_to_move else team_unspecified;
    }

-- The three ends in the order in which they are tried.
unfoldable pub verdict : Game → Verdict
verdict g = elim (is_checkmate g) [
  | true ↦ judge g true (opponent_proto g.side_to_move) end_checkmate
  | false ↦ elim (is_stalemate g) [
    | true ↦ judge g true team_unspecified end_stalemate
    | false ↦ elim (is_fifty_move_rule g) [
      | true ↦ judge g true team_unspecified end_draw
      | false ↦ judge g false team_unspecified end_unknown
    ]
  ]
]

-- What both players get of a move. The clocks go out in seconds.
unfoldable pub move_message : ActiveGame → Text → MoveRequest → Verdict → ServerMessage
move_message g player_id req v = move_broadcast (record {
  game_id = g.game_id;
  player_id = player_id;
  from = req.from;
  to = req.to;
  promotion = pt_none;
  game_ends = v.game_ends;
  winner_team = v.winner_team;
  end_type = v.end_type;
  is_check = v.is_check;
  checked_team = v.checked_team;
  white_time_remaining = div_ℤ g.white_time_remaining (pos 1000);
  black_time_remaining = div_ℤ g.black_time_remaining (pos 1000);
})

abbrev pub team_digit : Team → ℕ
team_digit white = b'0'
team_digit black = b'1'

-- "move_%d_to_%d"
abbrev pub fen_placeholder : Game → Text
fen_placeholder g =
    codes "move_"
    ++ (decimal_ℤ g.halfmove_clock ++ (codes "_to_" ++ (team_digit g.side_to_move ∷ [])))

-- The player at the board: his name, his opponent's descriptor and his team.
pub record Seat : Type 0 where
  pub player_id : Text
  pub opponent_fd : ℤ
  pub team : Team

unfoldable pub seat_of : ℤ → ActiveGame → Option Seat
seat_of fd g =
    if g.white_player_fd ==ℤ fd
    then some
        (record { player_id = g.white_player_id; opponent_fd = g.black_player_fd; team = white })
    else if g.black_player_fd ==ℤ fd
    then some
        (record { player_id = g.black_player_id; opponent_fd = g.white_player_fd; team = black })
    else none

-- Both broadcasts and the removal of an ended game.
unfoldable pub conclude : ℤ → ActiveGame → Seat → MoveRequest → Server → ℤ × Server
conclude fd g seat req s =
    let v = verdict g.game_state in
    let msg = move_message g seat.player_id req v in
    let out = notify fd msg (notify seat.opponent_fd msg s.out) in
    (
      pos 0,
      record {
        manager = if v.game_ends then (remove_game (some g.game_id) s.manager).1 else s.manager;
        out = out;
      },
    )

-- The move is made on the game at place j; the player is answered first, and if that fails nothing
-- else happens.
unfoldable pub make_turn :
    Net → ℤ → ℤ → ℕ → ActiveGame → Seat → MoveRequest → Game → Server → ℤ × Server
make_turn net now_ms fd j g seat req moved s =
    let g' = record g { game_state = moved; last_move_time_ms = now_ms } in
    let m' = record (s.manager) { active_games = set s.manager.active_games j g' } in
    let (sent, s') =
      send_move_success net fd g.game_id seat.player_id (fen_placeholder moved)
        (record s { manager = m' }) in
    if failed sent then (minus_one, s') else conclude fd g' seat req s'

unfoldable pub try_move : Net → ℤ → ℤ → ℕ → ActiveGame → Seat → MoveRequest → Server → ℤ × Server
try_move net now_ms fd j g seat req s =
    let refuse = λ (why : Text). send_move_error net fd g.game_id seat.player_id why s in
    elim (team_eq g.game_state.side_to_move seat.team) [
      | false ↦ refuse (codes "It's not your turn")
      | true ↦ elim (parse_chess_coordinate req.from) [
        | none ↦ refuse (codes "Invalid source coordinate")
        | some (sx, sy) ↦ elim (parse_chess_coordinate req.to) [
          | none ↦ refuse (codes "Invalid destination coordinate")
          | some (dx, dy) ↦ elim (is_move_legal g.game_state sx sy dx dy) [
            | false ↦ refuse (codes "Illegal move")
            | true ↦ make_turn net now_ms fd j g seat req (apply_move g.game_state sx sy dx dy) s
          ]
        ]
      ]
    ]

unfoldable pub handle_move_message : Net → ℤ → ℤ → ClientMessage → Server → ℤ × Server
handle_move_message net now_ms fd (move (some req)) s = elim (find_game_by_player_fd fd s.manager) [
  | none ↦ send_move_error net fd [] [] (codes "You are not in an active game") s
  | some (j, g) ↦ elim (seat_of fd g) [
    | none ↦
        send_move_error net fd g.game_id [] (codes "Internal error: player not found in game") s
    | some seat ↦ try_move net now_ms fd j g seat req s
  ]
]
handle_move_message net now_ms fd _ s = (minus_one, s)
