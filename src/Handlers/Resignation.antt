-- ===== src/Handlers/Resignation.antt =====
-- The result that a resignation leaves in the saved game (client/handlers/resign.c,
-- client/game_save.c).
use multiplay_chess.Prelude.{
  ◌≡◌, ◌≢◌, refl, ap, ◌∙◌, Bool-cases, true, false, inl, inr, [], ◌∷◌, pos, ◌==ℤ◌, ==ℤ→≡, Text,
  codes, text_eq,
}
use multiplay_chess.Rule.{is_checkmate, is_stalemate}
use multiplay_chess.Protocol.{ResignBroadcast}
use multiplay_chess.Client.{GameState}
use multiplay_chess.Pgn.{result_of, pgn_text, write_pgn, save_current_game}
use multiplay_chess.ClientState.{ClientState, add_chat_message_safe}
use multiplay_chess.Handlers.Notices.{Around}
use multiplay_chess.Handlers.Endings.{written, resign_text, resign_result, handle_resign_broadcast}
use multiplay_chess.Handlers.Bounds.{with_chat, add_chat_message-with_chat}

saved_result :
    (a : Around) (s : GameState)
    → s.pgn_move_count ≢ pos 0
    → a.disk.folder_ready ≡ true
    → (save_current_game a.disk s).1.pgn_result ≡ result_of s
unfolding save_current_game
saved_result a s some_moves ready = elim (Bool-cases (s.pgn_move_count ==ℤ pos 0)) [
  | inl zero ↦ absurd (some_moves (==ℤ→≡ s.pgn_move_count (pos 0) zero))
  | inr more ↦ rw (more, ready) refl
]

undecided :
    (s : GameState)
    → is_checkmate s.game ≡ false
    → is_stalemate s.game ≡ false
    → s.opponent_disconnected ≡ false
    → result_of s ≡ codes "*"
unfolding result_of
undecided s no_mate no_stalemate connected = rw (no_mate, no_stalemate, connected, result_of) refl

-- What a save that succeeds writes is the state that it leaves.
saved_file :
    (a : Around) (s : GameState)
    → s.pgn_move_count ≢ pos 0
    → a.disk.folder_ready ≡ true
    → a.disk.file_opens ≡ true
    → written (save_current_game a.disk s).0
      ≡ record {
        name = a.disk.file_name;
        content = pgn_text a.disk.date (record s { pgn_result = result_of s });
      }
        ∷ []
unfolding save_current_game write_pgn
saved_file a s some_moves ready opens = elim (Bool-cases (s.pgn_move_count ==ℤ pos 0)) [
  | inl zero ↦ absurd (some_moves (==ℤ→≡ s.pgn_move_count (pos 0) zero))
  | inr more ↦ rw (more, ready, opens) refl
]

-- A resignation in a game with moves, neither checkmate nor stalemate on the board and the opponent
-- not marked as gone, where the folder is ready and the file opens: whoever resigned, the winner that
-- the handler writes is overwritten by "*", and the one file that is written is the game with that
-- result.
pub handle_resign_broadcast_undecided :
    (a : Around) (b : ResignBroadcast) (c : ClientState)
    → c.game_state.pgn_move_count ≢ pos 0
    → is_checkmate c.game_state.game ≡ false
    → is_stalemate c.game_state.game ≡ false
    → c.game_state.opponent_disconnected ≡ false
    → a.disk.folder_ready ≡ true
    → a.disk.file_opens ≡ true
    → ((handle_resign_broadcast a b c).client.game_state.pgn_result ≡ codes "*")
      × ((handle_resign_broadcast a b c).files
          ≡ record {
            name = a.disk.file_name;
            content = pgn_text a.disk.date (record c.game_state { pgn_result = codes "*" });
          }
            ∷ [])
unfolding handle_resign_broadcast add_chat_message_safe pgn_text
handle_resign_broadcast_undecided a b c some_moves no_mate no_stalemate connected ready opens =
    let (ms, n, e) =
      add_chat_message-with_chat a.now (codes "System")
        (resign_text (text_eq b.player_id c.username)) c.game_state in
    rw e (
      saved_result a _ some_moves ready ∙ undecided _ no_mate no_stalemate connected,
      saved_file a _ some_moves ready opens
          ∙ ap
              (λ (r : Text).
                record {
                  name = a.disk.file_name;
                  content = pgn_text a.disk.date (record c.game_state { pgn_result = r });
                }
                ∷ [])
              (undecided
                (record (with_chat ms n c.game_state) {
                  pgn_result =
                      resign_result (text_eq b.player_id c.username) c.game_state.local_team;
                })
                no_mate no_stalemate connected),
    )
