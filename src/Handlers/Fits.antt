-- ===== src/Handlers/Fits.antt =====
-- The sizes of the client's texts and counts under the messages of the server (client/handlers/).
use multiplay_chess.Prelude.{
  if-Holds, ◌≤◌, ◌≡◌, refl, Bool-cases, inl, inr, some, [], length, ℤ, pos, ◌≤ℤ◌, Text, text_eq,
  arith, codes,
}
use multiplay_chess.Protocol.{
  ProtoTeam, team_unspecified, team_white, team_black, MatchGameResponse, MoveBroadcast,
  GameEndBroadcast, ResignBroadcast, CheckBroadcast, ServerMessage, ping_res, echo_res,
  match_game_res, cancel_match_res, move_res, move_broadcast, game_end, chat_broadcast, resign_res,
  resign_broadcast, check_broadcast, error, msg_not_set,
}
use multiplay_chess.Client.{no_message, init_game_state, GameState, apply_move_from_server}
use multiplay_chess.ClientState.{
  screen_main, ClientState, init_client_state, add_chat_message_safe, request_update,
}
use multiplay_chess.Handlers.Notices.{
  Around, Handled, handled, with_game, match_found, handle_ping_response, handle_echo_response,
  handle_match_game_response, handle_cancel_match_response, handle_chat_broadcast,
  handle_error_response, handle_check_broadcast, handle_resign_response,
}
use multiplay_chess.Handlers.Endings.{
  end_dialog, ended, resign_text, handle_resign_broadcast, handle_game_end_broadcast,
}
use multiplay_chess.Handlers.MoveBroadcast.{
  follow_move, end_message, finish_game, handle_move_response, handle_move_broadcast,
}
use multiplay_chess.Handlers.Dispatch.{dispatch_server_message}
use multiplay_chess.Handlers.Bounds.{
  length-take_le, Each-replicate, MessageFits, MoveFits, IsBounded, with_result-IsBounded,
  same-IsBounded, save_current_game-IsBounded, record_move-IsBounded, mark_check-IsBounded,
  sync_clocks-IsBounded, begin_game-IsBounded, resign_result_fits, add_chat_message-IsBounded,
}

-- The client around it: the user's name, the line of chat with its cursor, the texts of its dialogs.
pub record IsClient (c : ClientState) : Type 0 where
  pub bounded : IsBounded c.game_state
  pub title_fits : length c.resign_result_title ≤ 63
  pub resign_fits : length c.resign_result_message ≤ 255
  pub end_fits : length c.game_end_message ≤ 255
  pub name_fits : length c.username ≤ 31
  pub lost_fits : length c.disconnect_message ≤ 255
  pub line_size : length c.chat_input_buffer ≡ 256
  pub line_low : pos 0 ≤ℤ c.chat_input_cursor
  pub line_high : c.chat_input_cursor ≤ℤ pos 255

-- What leaves these fields alone.
abbrev pub SameTexts : ClientState → ClientState → Type 0
SameTexts d c =
    (d.resign_result_title ≡ c.resign_result_title)
    × (d.resign_result_message ≡ c.resign_result_message)
    × (d.game_end_message ≡ c.game_end_message)
    × (d.username ≡ c.username)
    × (d.disconnect_message ≡ c.disconnect_message)
    × (d.chat_input_buffer ≡ c.chat_input_buffer)
    × (d.chat_input_cursor ≡ c.chat_input_cursor)

pub still_texts : (c : ClientState) → SameTexts c c
still_texts c = (refl, refl, refl, refl, refl, refl, refl)

pub assigned-Holds :
    {A : Type 0} (P : A → Type 0) {x y : A} (t : ProtoTeam)
    → P x
    → P y
    → P (elim t [ team_unspecified ↦ x | _ ↦ y ])
assigned-Holds P team_unspecified p q = p
assigned-Holds P team_white p q = q
assigned-Holds P team_black p q = q

-- What leaves the dialogs' texts is a matter of the game alone.
pub same-IsClient :
    {c : ClientState} (d : ClientState)
    → IsClient c
    → IsBounded d.game_state
    → SameTexts d c
    → IsClient d
same-IsClient d k b (title, resign, end, name, lost, line, cursor) = record {
  name_fits = rw name k.name_fits;
  lost_fits = rw lost k.lost_fits;
  line_size = rw line k.line_size;
  line_low = rw cursor k.line_low;
  line_high = rw cursor k.line_high;
  bounded = b;
  title_fits = rw title k.title_fits;
  resign_fits = rw resign k.resign_fits;
  end_fits = rw end k.end_fits;
}

pub told-IsClient :
    {c : ClientState} (now : ℤ) (sender message : Text)
    → IsClient c
    → IsClient (add_chat_message_safe now sender message c)
unfolding add_chat_message_safe
told-IsClient now sender message k =
    same-IsClient _ k (add_chat_message-IsBounded k.bounded now sender message)
      (refl, refl, refl, refl, refl, refl, refl)

with_game-IsClient :
    {c : ClientState} {s : GameState} → IsClient c → IsBounded s → IsClient (with_game s c)
with_game-IsClient k b = same-IsClient _ k b (refl, refl, refl, refl, refl, refl, refl)

shown-IsClient : {c : ClientState} → IsClient c → IsClient (request_update c)
shown-IsClient k = same-IsClient _ k k.bounded (refl, refl, refl, refl, refl, refl, refl)

pub init_client_state-IsClient : IsClient init_client_state
unfolding init_client_state init_game_state
init_client_state-IsClient = record {
  bounded = record {
    chat = record { size = refl; within = omega arith };
    moves_size = refl;
    count_low = omega arith;
    count_high = omega arith;
    local_fits = omega arith;
    opponent_fits = omega arith;
    message_fits = omega arith;
    result_fits = omega arith;
    texts_fit = Each-replicate MessageFits 50 no_message (omega arith, omega arith);
    moves_fit = Each-replicate MoveFits 512 [] (omega arith);
  };
  title_fits = omega arith;
  resign_fits = omega arith;
  end_fits = omega arith;
  name_fits = omega arith;
  lost_fits = omega arith;
  line_size = refl;
  line_low = omega arith;
  line_high = omega arith;
}

follow_move-IsClient :
    {c : ClientState} (a : Around) (b : MoveBroadcast) → IsClient c → IsClient (follow_move a b c)
unfolding follow_move
follow_move-IsClient {c} a b k =
    let (ok, g) = apply_move_from_server c.game_state.game (some b.from) (some b.to) in
    let k' =
      same-IsBounded k.bounded (record c.game_state { game = g })
        (record { size = k.bounded.chat.size; within = k.bounded.chat.within }) refl refl refl refl
        refl refl refl in
    elim (Bool-cases ok) [
      | inl applied ↦ rw applied (
          shown-IsClient (
            with_game-IsClient k (
              sync_clocks-IsBounded (mark_check-IsBounded (record_move-IsBounded k' b.from b.to) b)
                a b)))
      | inr refused ↦ rw refused (told-IsClient a.now _ _ (with_game-IsClient k k'))
    ]

finish_game-IsClient :
    {c : ClientState} (a : Around) (b : MoveBroadcast)
    → IsClient c
    → IsClient (finish_game a b c).client
unfolding finish_game add_chat_message_safe
finish_game-IsClient {c} a b k =
    let told = add_chat_message-IsBounded k.bounded a.now _ _ in
    let saved = save_current_game-IsBounded told a.disk in
    record {
      bounded =
          same-IsBounded saved _ (record { size = saved.chat.size; within = saved.chat.within })
            refl refl refl refl refl refl refl;
      title_fits = k.title_fits;
      resign_fits = k.resign_fits;
      end_fits = length-take_le 255 (end_message b);
      name_fits = k.name_fits;
      lost_fits = k.lost_fits;
      line_size = k.line_size;
      line_low = k.line_low;
      line_high = k.line_high;
    }

handle_move_broadcast-IsClient :
    {c : ClientState} (a : Around) (b : MoveBroadcast)
    → IsClient c
    → IsClient (handle_move_broadcast a b c).client
unfolding handle_move_broadcast
handle_move_broadcast-IsClient {c} a b k =
    let followed = follow_move-IsClient a b (told-IsClient a.now _ _ k) in
    if-Holds (λ (h : Handled). IsClient h.client) b.game_ends (finish_game-IsClient a b followed)
      followed

match_found-IsClient :
    {c : ClientState} (a : Around) (r : MatchGameResponse)
    → IsClient c
    → IsClient (match_found a r c)
unfolding match_found add_chat_message_safe
match_found-IsClient {c} a r k =
    same-IsClient _ k
      (begin_game-IsBounded (add_chat_message-IsBounded k.bounded a.now _ _) a r c.username)
      (refl, refl, refl, refl, refl, refl, refl)

handle_match_game_response-IsClient :
    {c : ClientState} (a : Around) (r : MatchGameResponse)
    → IsClient c
    → IsClient (handle_match_game_response a r c).client
unfolding handle_match_game_response
handle_match_game_response-IsClient {c} a r k =
    let told = told-IsClient a.now (codes "System") r.message k in
    let back = record (add_chat_message_safe a.now (codes "System") r.message c) {
      current_screen = screen_main;
    } in
    if-Holds (λ (h : Handled). IsClient h.client) {y = handled back} r.success
      (assigned-Holds (λ (h : Handled). IsClient h.client) r.assigned_team k
        (match_found-IsClient a r k))
      (same-IsClient back told told.bounded (refl, refl, refl, refl, refl, refl, refl))

handle_check_broadcast-IsClient :
    {c : ClientState} (a : Around) (b : CheckBroadcast)
    → IsClient c
    → IsClient (handle_check_broadcast a b c).client
unfolding handle_check_broadcast
handle_check_broadcast-IsClient {c} a b k = told-IsClient a.now _ _ (
    shown-IsClient (
      with_game-IsClient k (
        same-IsBounded k.bounded _
          (record {
            size = ground (arith, k.bounded.chat.size);
            within = ground (arith, k.bounded.chat.within);
          })
          (ground arith) (ground arith) (ground arith) (ground arith) (ground arith) (ground arith)
          (ground arith))))

handle_game_end_broadcast-IsClient :
    {c : ClientState} (a : Around) (b : GameEndBroadcast)
    → IsClient c
    → IsClient (handle_game_end_broadcast a b c).client
unfolding handle_game_end_broadcast
handle_game_end_broadcast-IsClient {c} a b k =
    shown-IsClient (with_game-IsClient k (add_chat_message-IsBounded ended-IsBounded a.now _ _))
  where
    open k.bounded use {
      chat, moves_size, count_low, count_high, local_fits, opponent_fits, result_fits, texts_fit,
      moves_fit,
    }

    ended-IsBounded : IsBounded (ended b c.game_state)
    ended-IsBounded = record {
      chat = record { size = chat.size; within = chat.within };
      moves_size = moves_size;
      count_low = count_low;
      count_high = count_high;
      local_fits = local_fits;
      opponent_fits = opponent_fits;
      message_fits = length-take_le 255 (end_dialog b);
      result_fits = result_fits;
      texts_fit = texts_fit;
      moves_fit = moves_fit;
    }

handle_resign_broadcast-IsClient :
    {c : ClientState} (a : Around) (b : ResignBroadcast)
    → IsClient c
    → IsClient (handle_resign_broadcast a b c).client
unfolding handle_resign_broadcast add_chat_message_safe
handle_resign_broadcast-IsClient {c} a b k =
    let i_resigned = text_eq b.player_id c.username in
    let told =
      add_chat_message-IsBounded k.bounded a.now (codes "System") (resign_text i_resigned) in
    let team = c.game_state.local_team in
    let decided = with_result-IsBounded told _ (resign_result_fits i_resigned _) in
    let saved = save_current_game-IsBounded decided a.disk in
    record {
      bounded =
          same-IsBounded saved _ (record { size = saved.chat.size; within = saved.chat.within })
            refl refl refl refl refl refl refl;
      title_fits = if-Holds (λ (t : Text). length t ≤ 63) i_resigned (omega arith) (omega arith);
      resign_fits = if-Holds (λ (t : Text). length t ≤ 255) i_resigned (omega arith) (omega arith);
      end_fits = k.end_fits;
      name_fits = k.name_fits;
      lost_fits = k.lost_fits;
      line_size = k.line_size;
      line_low = k.line_low;
      line_high = k.line_high;
    }

-- The invariant of the client: no message of the server, of whatever content, makes the user's name, the
-- names of the players, a chat message or its sender, the line of chat and its cursor, a recorded move,
-- the result, the text of a dialog, or a count of the client leave its array.
pub dispatch_server_message-IsClient :
    {c : ClientState} (a : Around) (m : ServerMessage)
    → IsClient c
    → IsClient (dispatch_server_message a m c).client
unfolding dispatch_server_message handle_ping_response handle_echo_response
    handle_cancel_match_response handle_chat_broadcast handle_error_response handle_move_response
    handle_resign_response
dispatch_server_message-IsClient a (ping_res message) k = k
dispatch_server_message-IsClient a (echo_res message) k = told-IsClient a.now _ _ k
dispatch_server_message-IsClient a (match_game_res r) k = handle_match_game_response-IsClient a r k
dispatch_server_message-IsClient a (cancel_match_res r) k = told-IsClient a.now _ _ k
dispatch_server_message-IsClient a (chat_broadcast b) k = shown-IsClient (told-IsClient a.now _ _ k)
dispatch_server_message-IsClient a (game_end b) k = handle_game_end_broadcast-IsClient a b k
dispatch_server_message-IsClient a (error r) k =
    let told = told-IsClient a.now (codes "System") _ k in
    same-IsClient _ told told.bounded (refl, refl, refl, refl, refl, refl, refl)
dispatch_server_message-IsClient a (move_res r) k =
    if-Holds IsClient r.success (shown-IsClient k) (told-IsClient a.now _ _ k)
dispatch_server_message-IsClient a (move_broadcast b) k = handle_move_broadcast-IsClient a b k
dispatch_server_message-IsClient a (check_broadcast b) k = handle_check_broadcast-IsClient a b k
dispatch_server_message-IsClient a (resign_res r) k = told-IsClient a.now _ _ k
dispatch_server_message-IsClient a (resign_broadcast b) k = handle_resign_broadcast-IsClient a b k
dispatch_server_message-IsClient a msg_not_set k = told-IsClient a.now _ _ k
