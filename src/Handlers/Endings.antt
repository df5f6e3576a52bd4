-- ===== src/Handlers/Endings.antt =====
-- The handlers of a resignation and of an ended game (client/handlers/resign.c, disconnect.c).
use multiplay_chess.Prelude.{
  Bool, true, false, if◌then◌else◌, Option, none, some, List, [], ◌∷◌, ◌++◌, pos, Text, text_eq,
  codes,
}
use multiplay_chess.Piece.{Team}
use multiplay_chess.Protocol.{
  team_white, GameEndType, end_unknown, end_resign, end_disconnect, end_checkmate, end_stalemate,
  end_draw, end_timeout, GameEndBroadcast, ResignBroadcast,
}
use multiplay_chess.Client.{GameState, add_chat_message}
use multiplay_chess.Pgn.{File, win_of, loss_of, save_current_game}
use multiplay_chess.ClientState.{ClientState, add_chat_message_safe, request_update}
use multiplay_chess.Handlers.Notices.{Around, Handled, handled, cut, with_game}

abbrev pub written : Option File → List File
written none = []
written (some file) = file ∷ []

abbrev pub resign_text : Bool → Text
resign_text i_resigned =
    if i_resigned
    then codes "You resigned the game."
    else codes "Opponent resigned the game. You win!"

abbrev pub resign_result : Bool → Team → Text
resign_result i_resigned team = if i_resigned then loss_of team else win_of team

unfoldable pub handle_resign_broadcast : Around → ResignBroadcast → ClientState → Handled
handle_resign_broadcast a b c =
    let i_resigned = text_eq b.player_id c.username in
    let told = add_chat_message_safe a.now (codes "System") (resign_text i_resigned) c in
    let s = told.game_state in
    let decided = record s { pgn_result = resign_result i_resigned s.local_team } in
    let (file, saved) = save_current_game a.disk decided in
    record {
      code = pos 0;
      client = record told {
        game_state = record saved { game_in_progress = false };
        resign_result_dialog_pending = true;
        resign_result_title =
            if i_resigned then codes "Game Over - Resignation" else codes "Game Over - Victory";
        resign_result_message =
            if i_resigned
            then codes "You resigned the game.\nYou lose by resignation!"
            else codes "Opponent resigned the game.\nYou win by resignation!";
        screen_update_requested = true;
      };
      files = written file;
    }

abbrev pub end_reason : GameEndType → Text
end_reason end_disconnect = codes "opponent disconnected"
end_reason end_resign = codes "resignation"
end_reason end_checkmate = codes "checkmate"
end_reason end_stalemate = codes "stalemate"
end_reason end_draw = codes "draw"
end_reason end_timeout = codes "timeout"
end_reason end_unknown = codes "unknown reason"

abbrev pub winning_team : GameEndBroadcast → Text
winning_team b = elim b.winner_team [ team_white ↦ codes "White" | _ ↦ codes "Black" ]

abbrev pub end_dialog : GameEndBroadcast → Text
end_dialog b =
    codes "Game ended by "
    ++ (end_reason b.end_type ++ (codes ".\n" ++ (winning_team b ++ codes " team wins the game!")))

abbrev pub end_notification : GameEndBroadcast → Text
end_notification b =
    codes "Game ended by "
    ++ (end_reason b.end_type ++ (codes ". " ++ (winning_team b ++ codes " team wins!")))

-- The flag of a lost opponent serves for every end of a game.
abbrev pub ended : GameEndBroadcast → GameState → GameState
ended b s = record s {
  opponent_disconnect_message = cut (end_dialog b);
  opponent_disconnected = true;
}

unfoldable pub handle_game_end_broadcast : Around → GameEndBroadcast → ClientState → Handled
handle_game_end_broadcast a b c =
    let notification = cut (end_notification b) in
    let s = add_chat_message a.now (codes "System") notification (ended b c.game_state) in
    handled (request_update (with_game s c))
