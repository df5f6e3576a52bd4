-- ===== src/Server/Outcome.antt =====
-- The outcomes of a request for a move (server/handlers/move.c).
use mathlib.Core.Path.{subst}
use multiplay_chess.Prelude.{
  ℕ, ◌≡◌, refl, sym, ap, ◌∙◌, ◌⊎◌, inl, inr, if◌then◌else◌, true, false, Bool, Bool-cases, if-True,
  if-False, [], ◌∷◌, set, some, Option-cases, some-injective, ℤ, pos, minus_one, Text, codes,
}
use multiplay_chess.Piece.{team_eq}
use multiplay_chess.Game.{Game}
use multiplay_chess.Rule.{is_move_legal, apply_move}
use multiplay_chess.Coordinate.{parse_chess_coordinate}
use multiplay_chess.Protocol.{MoveRequest, ServerMessage, move_res}
use multiplay_chess.Network.{Net, send_server_message, failed}
use multiplay_chess.Match.{ActiveGame, remove_game}
use multiplay_chess.Server.Session.{Server, reply}
use multiplay_chess.Server.Turn.{
  Seat, fen_placeholder, move_message, verdict, send_move_error, send_move_success, conclude,
  make_turn, try_move,
}
use multiplay_chess.Server.Verdict.{over, verdict-over}

-- A move that passed every test of the handler.
pub record Accepted (g : ActiveGame) (seat : Seat) (req : MoveRequest) : Type 0 where
  pub sx : ℤ
  pub sy : ℤ
  pub dx : ℤ
  pub dy : ℤ
  pub own_turn : team_eq g.game_state.side_to_move seat.team ≡ true
  pub reads_from : parse_chess_coordinate req.from ≡ some (sx, sy)
  pub reads_to : parse_chess_coordinate req.to ≡ some (dx, dy)
  pub legal : is_move_legal g.game_state sx sy dx dy ≡ true

module _ (net : Net) (now : ℤ) (fd : ℤ) (j : ℕ) (g : ActiveGame) (seat : Seat) (req : MoveRequest)
    (s : Server) where
  -- The request did not pass, the player gets an error, and nothing else has happened.
  abbrev pub Refused : Type 0
  Refused =
      ¬ (Accepted g seat req)
      × ((why : Text) × ((try_move net now fd j g seat req s).1 ≡ record s {
        out =
            record {
              to = fd;
              message = move_res (record {
                game_id = g.game_id;
                player_id = seat.player_id;
                success = false;
                message = why;
                updated_fen = [];
              });
            }
            ∷ s.out;
      }))

  -- The game with a move made, and the answer to the player.
  abbrev pub moved : Game → ActiveGame
  moved b = record g { game_state = b; last_move_time_ms = now }

  abbrev pub confirmation : Game → ServerMessage
  confirmation b = move_res (record {
    game_id = g.game_id;
    player_id = seat.player_id;
    success = true;
    message = codes "Move successful";
    updated_fen = fen_placeholder b;
  })

  -- The server that holds the moved game and has answered the player.
  abbrev pub holding : Game → Server
  holding b = record {
    manager = record (s.manager) { active_games = set s.manager.active_games j (moved b) };
    out = record { to = fd; message = confirmation b } ∷ s.out;
  }

  -- It has told both players too, and given up the game if it is to end.
  abbrev closed : Game → Bool → Server
  closed b ends =
      let told = move_message (moved b) seat.player_id req (verdict b) in
      record {
        manager =
            if ends
            then (remove_game (some g.game_id) (holding b).manager).1
            else (holding b).manager;
        out =
            record { to = fd; message = told }
            ∷ record { to = seat.opponent_fd; message = told }
            ∷ (holding b).out;
      }

  -- The game ends if it is over.
  abbrev pub settled : Game → Server
  settled b = closed b (over b)

  -- The move is made; only where the answer to the player fails is nobody told of it.
  abbrev pub Applies : Game → Type 0
  Applies b =
      (failed (net s.out fd (confirmation b)) ≡ true)
        × (try_move net now fd j g seat req s ≡ (minus_one, holding b))
      ⊎ (failed (net s.out fd (confirmation b)) ≡ false)
        × (try_move net now fd j g seat req s ≡ (pos 0, settled b))

  abbrev pub Made : Type 0
  Made = (a : Accepted g seat req) × Applies (apply_move g.game_state a.sx a.sy a.dx a.dy)

  make_turn_lem :
      (b : Game)
      → (failed (net s.out fd (confirmation b)) ≡ true)
          × (make_turn net now fd j g seat req b s ≡ (minus_one, holding b))
        ⊎ (failed (net s.out fd (confirmation b)) ≡ false)
          × (make_turn net now fd j g seat req b s ≡ (pos 0, settled b))
  unfolding make_turn send_move_success reply send_server_message conclude
  make_turn_lem b = elim (Bool-cases (failed (net s.out fd (confirmation b)))) [
    | inl lost ↦ inl (lost, if-True (λ r. r ≡ (minus_one, holding b)) _ _ _ lost refl)
    | inr sent ↦ inr (
      sent,
      if-False (λ r. r ≡ (pos 0, settled b)) _ _ _ sent
          (ap (λ e. (pos 0, closed b e)) (verdict-over b)),
    )
  ]

  -- A request either does not pass the tests, the player is told so, and the server is as it was but
  -- for that answer. Or it does: it is the player's turn, both squares can be read, and the move is
  -- legal; then the moved game stands in its place of the table, the player is answered, and, unless
  -- that answer fails, both players are told the move and a game that is over by checkmate,
  -- stalemate or the fifty-move rule is removed.
  pub try_move_outcome : Refused ⊎ Made
  unfolding try_move send_move_error reply send_server_message
  try_move_outcome = elim (Bool-cases (team_eq g.game_state.side_to_move seat.team)) [
    | inr waits ↦
        inl (λ a. let t = a.own_turn in cc, (codes "It's not your turn", rw (waits, try_move)))
    | inl turn ↦ elim (Option-cases (parse_chess_coordinate req.from)) [
      | inl bad ↦ inl (
        λ a. let t = a.reads_from in cc,
        (codes "Invalid source coordinate", rw (turn, bad, try_move)),
      )
      | inr ((sx, sy), from) ↦ elim (Option-cases (parse_chess_coordinate req.to)) [
        | inl bad ↦ inl (
          λ a. let t = a.reads_to in cc,
          (codes "Invalid destination coordinate", rw (turn, from, bad, try_move)),
        )
        | inr ((dx, dy), to) ↦ elim (Bool-cases (is_move_legal g.game_state sx sy dx dy)) [
          | inr illegal ↦ inl (
            λ a. not_legal sx sy dx dy from to illegal a,
            (codes "Illegal move", rw (turn, from, to, illegal, try_move)),
          )
          | inl legal ↦
              let b = apply_move g.game_state sx sy dx dy in
              let made : try_move net now fd j g seat req s
                  ≡ make_turn net now fd j g seat req b s =
                rw (turn, from, to, legal, try_move) in
              inr (
                record {
                  sx = sx;
                  sy = sy;
                  dx = dx;
                  dy = dy;
                  own_turn = turn;
                  reads_from = from;
                  reads_to = to;
                  legal = legal;
                },
                subst
                    (λ r.
                      (failed (net s.out fd (confirmation b)) ≡ true) × (r ≡ (minus_one, holding b))
                      ⊎ (failed (net s.out fd (confirmation b)) ≡ false) × (r ≡ (pos 0, settled b)))
                    (sym made) (make_turn_lem b),
              )
        ]
      ]
    ]
  ]
    where
      not_legal :
          (sx sy dx dy : ℤ)
          → parse_chess_coordinate req.from ≡ some (sx, sy)
          → parse_chess_coordinate req.to ≡ some (dx, dy)
          → is_move_legal g.game_state sx sy dx dy ≡ false
          → ¬ (Accepted g seat req)
      not_legal sx sy dx dy from to illegal a =
          let f : some (a.sx, a.sy) ≡ some (sx, sy) = sym a.reads_from ∙ from in
          let t : some (a.dx, a.dy) ≡ some (dx, dy) = sym a.reads_to ∙ to in
          let l = a.legal in
          let l' : is_move_legal g.game_state sx sy dx dy ≡ true =
            sym (ap (λ q. is_move_legal g.game_state sx sy q.0 q.1) (some-injective t))
            ∙ (sym (ap (λ p. is_move_legal g.game_state p.0 p.1 a.dx a.dy) (some-injective f))
                ∙ l) in
          cc
