-- ===== src/Handlers/MoveBroadcast.antt =====
-- The handlers of a move (client/handlers/move.c).
use multiplay_chess.Prelude.{
  ◌-◌, not, ◌&&◌, Bool, true, false, if◌then◌else◌, none, some, ◌++◌, get_elem?, set, take, ℤ, pos,
  ◌+ℤ◌, ltb_ℤ, leb_ℤ, pos_part, Text, text_eq, codes,
}
use multiplay_chess.Protocol.{
  ProtoTeam, team_unspecified, team_white, team_black, GameEndType, end_unknown, end_resign,
  end_disconnect, end_checkmate, end_stalemate, end_draw, end_timeout, MoveResponse, MoveBroadcast,
}
use multiplay_chess.Client.{GameState, apply_move_from_server, sync_timer_from_server}
use multiplay_chess.Pgn.{save_current_game}
use multiplay_chess.ClientState.{ClientState, add_chat_message_safe, request_update}
use multiplay_chess.Handlers.Notices.{Around, Handled, handled, cut, with_game}
use multiplay_chess.Handlers.Endings.{written}

unfoldable pub handle_move_response : Around → MoveResponse → ClientState → Handled
handle_move_response a r c = handled (
    if r.success
    then request_update c
    else add_chat_message_safe a.now (codes "System") (cut (codes "Move failed: " ++ r.message)) c)

-- A move is recorded as long as there is a place, unless it is the one recorded last. `snprintf`
-- keeps five bytes of `from` and `to`; a place out of the array is an index past its end.
abbrev pub already_recorded : GameState → Text → Bool
already_recorded s move =
    ltb_ℤ (pos 0) s.pgn_move_count
    && (elim (get_elem? s.pgn_moves (pos_part s.pgn_move_count - 1)) [
      | none ↦ false
      | some last ↦ text_eq last move
    ])

unfoldable pub record_move : Text → Text → GameState → GameState
record_move from to s =
    let move = take 5 (from ++ to) in
    if ltb_ℤ s.pgn_move_count (pos 512) && not (already_recorded s move)
    then record s {
      pgn_moves = set s.pgn_moves (pos_part s.pgn_move_count) move;
      pgn_move_count = s.pgn_move_count +ℤ pos 1;
    }
    else s

abbrev pub mark_check : MoveBroadcast → GameState → GameState
mark_check b s =
    if b.is_check
    then (elim b.checked_team [
      | team_white ↦ record s { white_in_check = true; black_in_check = false }
      | team_black ↦ record s { white_in_check = false; black_in_check = true }
      | team_unspecified ↦ s
    ])
    else record s { white_in_check = false; black_in_check = false }

abbrev pub sync_clocks : Around → MoveBroadcast → GameState → GameState
sync_clocks a b s =
    let sync_time : ℤ = elim a.move_timestamp [ none ↦ a.now | some t ↦ t ] in
    if leb_ℤ (pos 0) b.white_time_remaining && leb_ℤ (pos 0) b.black_time_remaining
    then sync_timer_from_server b.white_time_remaining b.black_time_remaining sync_time s
    else s

-- The board, the record, the check marks and the clocks.
unfoldable pub follow_move : Around → MoveBroadcast → ClientState → ClientState
follow_move a b c =
    let (ok, g) = apply_move_from_server c.game_state.game (some b.from) (some b.to) in
    let s = record c.game_state { game = g } in
    if ok
    then request_update (with_game (sync_clocks a b (mark_check b (record_move b.from b.to s))) c)
    else add_chat_message_safe a.now (codes "System")
        (codes "Failed to update board state - invalid move coordinates") (with_game s c)

abbrev pub winner_text : ProtoTeam → Text
winner_text team_white = codes "White wins"
winner_text team_black = codes "Black wins"
winner_text team_unspecified = codes "Draw"

abbrev pub end_text : GameEndType → Text
end_text end_checkmate = codes "checkmate"
end_text end_stalemate = codes "stalemate"
end_text end_draw = codes "draw"
end_text end_resign = codes "resignation"
end_text end_disconnect = codes "disconnection"
end_text end_timeout = codes "timeout"
end_text end_unknown = codes "unknown reason"

abbrev pub end_message : MoveBroadcast → Text
end_message b =
    codes "Game Over: " ++ (winner_text b.winner_team ++ (codes " by " ++ end_text b.end_type))

unfoldable pub finish_game : Around → MoveBroadcast → ClientState → Handled
finish_game a b c =
    let end_msg = cut (end_message b) in
    let told = add_chat_message_safe a.now (codes "Game") end_msg c in
    let (file, saved) = save_current_game a.disk told.game_state in
    record {
      code = pos 0;
      client = record told {
        game_state = record saved { game_in_progress = false };
        game_end_dialog_pending = true;
        game_end_message = end_msg;
        screen_update_requested = true;
      };
      files = written file;
    }

abbrev pub announcement : MoveBroadcast → Text
announcement b = cut (b.player_id ++ (codes " moved " ++ (b.from ++ (codes " -> " ++ b.to))))

unfoldable pub handle_move_broadcast : Around → MoveBroadcast → ClientState → Handled
handle_move_broadcast a b c =
    let told = add_chat_message_safe a.now (codes "Game") (announcement b) c in
    let followed = follow_move a b told in
    if b.game_ends then finish_game a b followed else handled followed
