-- ===== src/Play/Clicked.antt =====
-- A move from the click to both boards (client/ui/input.c, client/client_network.c,
-- server/handlers/move.c, client/handlers/move.c).
use multiplay_chess.Prelude.{
  ◌≡◌, refl, ap, ◌∙◌, ◌&&◌, true, false, Bool, Bool-cases, inl, inr, if◌then◌else◌, if-False, some,
  ◌∷◌, set, ℕ, ℤ, pos, ◌≤ℤ◌, ◌==ℤ◌, ==ℤ→≡, arith,
}
use multiplay_chess.Piece.{team_eq}
use multiplay_chess.Game.{Game}
use multiplay_chess.Rule.{stands_for, is_move_legal, apply_move}
use multiplay_chess.Rule.Moves.{Passes, legal-Passes, stands_for-team}
use multiplay_chess.Coordinate.{format_chess_coordinate, parse-format}
use multiplay_chess.Protocol.{MoveRequest, ServerMessage, move}
use multiplay_chess.Network.{Net, failed}
use multiplay_chess.Match.{ActiveGame, remove_game, find_game_by_player_fd}
use multiplay_chess.Client.{apply_move_from_server}
use multiplay_chess.Client.Mirror.{apply_move_from_server_lem}
use multiplay_chess.Play.Follow.{broadcast-game}
use multiplay_chess.ClientState.{ClientState}
use multiplay_chess.Handlers.{Around, dispatch_server_message}
use multiplay_chess.Server.Session.{Server}
use multiplay_chess.Server.Turn.{
  Seat, seat_of, verdict, move_message, fen_placeholder, send_move_success, conclude, make_turn,
  try_move, handle_move_message,
}
use multiplay_chess.Server.Verdict.{over, verdict-over}
use multiplay_chess.Input.{Desk, Moment, stands, handle_board_click}
use multiplay_chess.Input.Requests.{two_clicks}

-- A piece of the side to move, and a target that is none, are on two squares.
other_square : (g : Game) (x y x' y' : ℤ) → Passes g x y x' y' → ((x' ==ℤ x) && (y' ==ℤ y)) ≡ false
other_square g x y x' y' p = elim (Bool-cases ((x' ==ℤ x) && (y' ==ℤ y))) [
  | inr other ↦ other
  | inl same ↦
      let ex : x' ≡ x = ==ℤ→≡ x' x (ground arith) in
      let ey : y' ≡ y = ==ℤ→≡ y' y (ground arith) in
      let h = p.not_own_target in
      let h' : stands_for g.side_to_move (g.board y x) ≡ false = rw (ex, ey) at h in
      let own = p.own_piece in absurd (cc)
]

own_stands : (g : Game) (x y x' y' : ℤ) → Passes g x y x' y' → stands (g.board y x) ≡ true
own_stands g x y x' y' p = let h = p.own_piece in ground arith

-- The request for a move.
abbrev pub asked : ℤ → ℤ → ℤ → ℤ → MoveRequest
asked x y x' y' = record { from = format_chess_coordinate x y; to = format_chess_coordinate x' y' }

-- The game with a move made.
abbrev pub turned : ℤ → ActiveGame → ℤ → ℤ → ℤ → ℤ → ActiveGame
turned now g x y x' y' = record g {
  game_state = apply_move g.game_state x y x' y';
  last_move_time_ms = now;
}

-- The answer to the player, by a server that holds the moved game.
abbrev pub confirmed : Net → ℤ → ℤ → ℕ → ActiveGame → Seat → ℤ → ℤ → ℤ → ℤ → Server → ℤ × Server
confirmed net now fd j g seat x y x' y' s =
    let g' = turned now g x y x' y' in
    send_move_success net fd g.game_id seat.player_id (fen_placeholder g'.game_state)
      (record s { manager = record (s.manager) { active_games = set s.manager.active_games j g' } })

-- What both players are told of a move.
abbrev pub announced : ℤ → ActiveGame → Seat → ℤ → ℤ → ℤ → ℤ → ServerMessage
announced now g seat x y x' y' =
    let g' = turned now g x y x' y' in
    move_message g' seat.player_id (asked x y x' y') (verdict g'.game_state)

-- The server behind the move: both players are told, the opponent first, and a game that is to end is
-- removed.
abbrev closed : Net → ℤ → ℤ → ℕ → ActiveGame → Seat → ℤ → ℤ → ℤ → ℤ → Server → Bool → Server
closed net now fd j g seat x y x' y' s ends =
    let held = (confirmed net now fd j g seat x y x' y' s).1 in
    let told = announced now g seat x y x' y' in
    record {
      manager = if ends then (remove_game (some g.game_id) held.manager).1 else held.manager;
      out =
          record { to = fd; message = told }
          ∷ record { to = seat.opponent_fd; message = told }
          ∷ held.out;
    }

-- A game ends that is over by checkmate, stalemate or the fifty-move rule.
abbrev pub settled : Net → ℤ → ℤ → ℕ → ActiveGame → Seat → ℤ → ℤ → ℤ → ℤ → Server → Server
settled net now fd j g seat x y x' y' s =
    closed net now fd j g seat x y x' y' s (over (turned now g x y x' y').game_state)

-- The server's answer to the request of a legal move, where the answer goes out.
module _ (net : Net) (now fd : ℤ) (j : ℕ) (g : ActiveGame) (seat : Seat) (x y x' y' : ℤ)
    (s : Server) (playing : find_game_by_player_fd fd s.manager ≡ some (j, g))
    (seated : seat_of fd g ≡ some seat) (turn : team_eq g.game_state.side_to_move seat.team ≡ true)
    (legal : is_move_legal g.game_state x y x' y' ≡ true) where
  tried :
      handle_move_message net now fd (move (some (asked x y x' y'))) s
      ≡ make_turn net now fd j g seat (asked x y x' y') (apply_move g.game_state x y x' y') s
  unfolding handle_move_message try_move
  tried =
      let p = (legal-Passes g.game_state x y x' y' legal).0 in
      rw (playing, handle_move_message)
        (rw seated (
          rw (turn, parse-format x y p.from_inside, parse-format x' y' p.to_inside, legal, try_move)
            refl))

  answered :
      failed (confirmed net now fd j g seat x y x' y' s).0 ≡ false
      → handle_move_message net now fd (move (some (asked x y x' y'))) s
        ≡ (pos 0, settled net now fd j g seat x y x' y' s)
  unfolding make_turn conclude
  answered sent =
      tried
      ∙ if-False (λ r. r ≡ (pos 0, settled net now fd j g seat x y x' y' s)) _ _ _ sent
          (ap (λ e. (pos 0, closed net now fd j g seat x y x' y' s e))
            (verdict-over (turned now g x y x' y').game_state))

-- A client that stood at the game's position stands at the new one.
follows :
    (a : Around) (now : ℤ) (g : ActiveGame) (seat : Seat) (x y x' y' : ℤ) (c : ClientState)
    → is_move_legal g.game_state x y x' y' ≡ true
    → c.game_state.game ≡ g.game_state
    → (dispatch_server_message a (announced now g seat x y x' y') c).client.game_state.game
      ≡ apply_move g.game_state x y x' y'
unfolding dispatch_server_message move_message
follows a now g seat x y x' y' c legal same =
    let p = (legal-Passes g.game_state x y x' y' legal).0 in
    broadcast-game a _ c _ (
      ap (λ h. apply_move_from_server h (some (asked x y x' y').from) (some (asked x y x' y').to))
        same
      ∙ (apply_move_from_server_lem g.game_state (asked x y x' y').from (asked x y x' y').to
          ∙ rw (parse-format x y p.from_inside, parse-format x' y' p.to_inside) refl))

-- A player on his turn, whose client stands at the game's position, clicks a piece and a square, and
-- the move is legal; the request and the server's answer go out. The client asks for that move. The
-- server puts the moved game into its table, hands one and the same message, `announced`, to both
-- players' descriptors, and removes the game if it is over by checkmate, stalemate or the fifty-move
-- rule. That message brings the client, and any other that stood at the position, to the server's new one.
pub clicked_move_played :
    (net : Net) (now fd : ℤ) (j : ℕ) (g : ActiveGame) (seat : Seat) (s : Server) (x y x' y' : ℤ)
    (m m' : Moment) (d : Desk) (a : Around) (other : ClientState)
    → find_game_by_player_fd fd s.manager ≡ some (j, g)
    → seat_of fd g ≡ some seat
    → team_eq g.game_state.side_to_move seat.team ≡ true
    → is_move_legal g.game_state x y x' y' ≡ true
    → failed (confirmed net now fd j g seat x y x' y' s).0 ≡ false
    → d.client.game_state.game ≡ g.game_state
    → d.client.game_state.local_team ≡ seat.team
    → d.client.piece_selected ≡ false
    → d.client.connected ≡ true
    → pos 0 ≤ℤ m'.sent
    → other.game_state.game ≡ g.game_state
    → ((handle_board_click m' x' y' (handle_board_click m x y d)).requests
        ≡ move (some (asked x y x' y')) ∷ d.requests)
      × (handle_move_message net now fd (move (some (asked x y x' y'))) s
          ≡ (pos 0, settled net now fd j g seat x y x' y' s))
      × ((dispatch_server_message a
            (announced now g seat x y x' y')
            (handle_board_click m' x' y'
              (handle_board_click m x y d)).client).client.game_state.game
          ≡ apply_move g.game_state x y x' y')
      × ((dispatch_server_message a (announced now g seat x y x' y') other).client.game_state.game
          ≡ apply_move g.game_state x y x' y')
clicked_move_played net now fd j g seat s x y x' y' m m' d a other playing seated turn legal sent at
      team none_yet on ok at' =
    let p = (legal-Passes g.game_state x y x' y' legal).0 in
    let piece = ap (λ h. stands (h.board y x)) at ∙ own_stands g.game_state x y x' y' p in
    let mover = ap (λ h. h.side_to_move) at in
    let own =
      ap (λ h. (h.board y x).team) at ∙ stands_for-team _ (g.game_state.board y x) p.own_piece in
    let (asks, _, kept) =
      two_clicks m m' x y x' y' d p.from_inside p.to_inside none_yet piece (rw (mover, team) turn)
        (rw (own, team) turn) (other_square g.game_state x y x' y' p) on ok in
    (
      asks,
      answered net now fd j g seat x y x' y' s playing seated turn legal sent,
      follows a now g seat x y x' y' _ legal (kept ∙ at),
      follows a now g seat x y x' y' other legal at',
    )
