-- ===== src/Screens/DeskFits.antt =====
-- The connection, the texts and the counts of the client under what the player does on the game screen
-- (client/ui/input.c, client/ui/chat.c).
use multiplay_chess.Prelude.{
  if-Holds, ◌≡◌, refl, ◌∙◌, ◌==◌, ◌&&◌, ◌||◌, not, Bool, Bool-cases, true, false, inl, inr,
  if◌then◌else◌, Option, none, some, List, [], ◌∷◌, ℕ, length, length-set, replicate, set, take,
  drop, ℤ, pos, pos_part, ◌+ℤ◌, ◌-ℤ◌, +ℤ_parts, -ℤ_parts, ◌≤ℤ◌, leb, leb_ℤ, ltb_ℤ, ◌==ℤ◌, c_string,
  codes, Text, text_eq, arith,
}
use multiplay_chess.Piece.{team_eq}
use multiplay_chess.Game.{in_board}
use multiplay_chess.Coordinate.{format_chess_coordinate}
use multiplay_chess.ClientState.{ClientState, add_chat_message_safe}
use multiplay_chess.Client.{off_range}
use multiplay_chess.Handlers.Fits.{IsClient, SameTexts, still_texts, told-IsClient}
use multiplay_chess.Connection.{on_game_screen, send_move_request, send_chat_message}
use multiplay_chess.Connection.Link.{SameLink, still}
use multiplay_chess.Connection.Bounds.{
  quiet-IsClient, send_move_request-Keeps, send_chat_message-Keeps,
}
use multiplay_chess.Input.{
  Desk, Moment, with_client, says, ask, stands, board_square, select_piece, unselected,
  request_click, place_piece, handle_board_click, click_at, handle_mouse_input, coord_to_board_pos,
  Pressed, arrow_up, arrow_down, arrow_left, arrow_right, backspace, byte, in_cursor_mode,
  enable_cursor_mode, disable_cursor_mode, press_square, press_escape, board_key,
  handle_keyboard_board_input, typed_move, typed_notation, handle_chess_notation,
}
use multiplay_chess.Input.Chat.{
  enable_chat_input, disable_chat_input, write_byte, skip_blanks, submit, press_enter,
  press_backspace, type_byte, chat_key, handle_chat_input,
}

-- The client keeps the connection of `c0`, and its texts and counts fit.
module _ (c0 : ClientState) where
  abbrev pub Kept : ClientState → Type 0
  Kept d = SameLink d c0 × IsClient d

  pub after-Kept : (x y : ClientState) → Kept x → SameLink y x × IsClient y → Kept y
  after-Kept x y ((a, b, c, d), k) ((a', b', c', d'), k') = ((a' ∙ a, b' ∙ b, c' ∙ c, d' ∙ d), k')

  pub quiet-Kept :
      (x y : ClientState)
      → y.game_state ≡ x.game_state
      → SameTexts y x
      → SameLink y x
      → Kept x
      → Kept y
  quiet-Kept x y game texts link k = after-Kept x y k (link, quiet-IsClient x y k.1 game texts)

  pub told-Kept :
      (now : ℤ) (sender message : Text) (x : ClientState)
      → Kept x
      → Kept (add_chat_message_safe now sender message x)
  unfolding add_chat_message_safe
  told-Kept now sender message x k =
      after-Kept x (add_chat_message_safe now sender message x) k
        (still x, told-IsClient now sender message k.1)

  abbrev pub Fine : Desk → Type 0
  Fine d = Kept d.client

  abbrev pub Finest : Bool × Desk → Type 0
  Finest r = Kept r.1.client

  says-Fine : (m : Moment) (text : Text) (d : Desk) → Fine d → Fine (says m text d)
  says-Fine m text d k = told-Kept m.now (codes "System") text d.client k

  unselected-Fine : (d : Desk) → Fine d → Fine (with_client (unselected d.client) d)
  unselected-Fine d k =
      quiet-Kept d.client (unselected d.client) refl (still_texts d.client) (still d.client) k

  select_piece-Fine : (m : Moment) (x y : ℤ) (d : Desk) → Fine d → Fine (select_piece m x y d)
  unfolding select_piece
  select_piece-Fine m x y d k =
      let c = d.client in
      let s = c.game_state in
      let square = s.game.board y x in
      let picked = record c { selected_x = x; selected_y = y; piece_selected = true } in
      if-Holds Fine (not (stands square)) k (
        if-Holds Fine (not (team_eq s.game.side_to_move s.local_team)) (says-Fine m _ d k) (
          if-Holds Fine (not (team_eq square.team s.local_team)) (says-Fine m _ d k) (
            says-Fine m (codes "Piece selected. Click destination.") (with_client picked d)
              (quiet-Kept c picked refl (still_texts c) (still c) k))))

  request_click-Fine : (m : Moment) (x y : ℤ) (d : Desk) → Fine d → Fine (request_click m x y d)
  unfolding request_click
  request_click-Fine m x y d k =
      let c = d.client in
      let from = format_chess_coordinate c.selected_x c.selected_y in
      let to = format_chess_coordinate x y in
      let a = send_move_request m.now m.sent (some from) (some to) c in
      let asked : Fine (ask a d) =
        after-Kept c a.client k
          (send_move_request-Keeps c k.1 m.now m.sent (some from) (some to)) in
      if-Holds Fine (a.result ==ℤ pos 0) (unselected-Fine (ask a d) asked)
        (says-Fine m _ (ask a d) asked)

  handle_board_click-Fine :
      (m : Moment) (x y : ℤ) (d : Desk) → Fine d → Fine (handle_board_click m x y d)
  unfolding handle_board_click place_piece
  handle_board_click-Fine m x y d k =
      let c = d.client in
      let cancelled = with_client (unselected c) d in
      if-Holds Fine c.piece_selected
        (if-Holds Fine ((x ==ℤ c.selected_x) && (y ==ℤ c.selected_y))
          (says-Fine m _ cancelled (unselected-Fine d k))
          (if-Holds Fine (not (in_board c.selected_x c.selected_y))
            (says-Fine m _ cancelled (unselected-Fine d k)) (request_click-Fine m x y d k)))
        (select_piece-Fine m x y d k)

  click_at-Fine : (m : Moment) (p : Option (ℤ × ℤ)) (d : Desk) → Fine d → Fine (click_at m p d)
  unfolding click_at
  click_at-Fine m none d k = k
  click_at-Fine m (some (x, y)) d k = handle_board_click-Fine m x y d k

  press_square-Fine : (m : Moment) (d : Desk) → Fine d → Finest (press_square m d)
  press_square-Fine m d k =
      let (x, y) = board_square d.client.game_state.local_team d.cursor_x d.cursor_y in
      if-Holds Finest {x = (true, handle_board_click m x y d)} {y = (false, d)} d.cursor_mode
        (handle_board_click-Fine m x y d k) k

  press_escape-Fine : (d : Desk) → Fine d → Fine (press_escape d)
  unfolding disable_cursor_mode
  press_escape-Fine d k =
      if-Holds Fine {x = with_client (unselected d.client) d}
        {y = if d.cursor_mode then disable_cursor_mode d else d} d.client.piece_selected
        (unselected-Fine d k) (if-Holds Fine {x = disable_cursor_mode d} {y = d} d.cursor_mode k k)

  cursor_mode-Fine : (d : Desk) → Fine d → Fine (in_cursor_mode d)
  unfolding enable_cursor_mode
  cursor_mode-Fine d k = if-Holds Fine {x = d} {y = enable_cursor_mode d} d.cursor_mode k k

  pub board_key-Fine : (m : Moment) (ch : Pressed) (d : Desk) → Fine d → Finest (board_key m ch d)
  unfolding board_key
  board_key-Fine m arrow_up d k = cursor_mode-Fine d k
  board_key-Fine m arrow_down d k = cursor_mode-Fine d k
  board_key-Fine m arrow_left d k = cursor_mode-Fine d k
  board_key-Fine m arrow_right d k = cursor_mode-Fine d k
  board_key-Fine m backspace d k = k
  board_key-Fine m (byte c) d k =
      if-Holds Finest {x = press_square m d}
        {y = if c == 27 then (true, press_escape d) else (false, d)}
        ((c == b' ') || (c == b'\n') || (c == b'\r')) (press_square-Fine m d k)
        (if-Holds Finest {x = (true, press_escape d)} {y = (false, d)} (c == 27)
          (press_escape-Fine d k) k)

  pub mouse-Fine :
      (m : Moment) (x y : ℤ) (clicked : Bool) (d : Desk)
      → Fine d
      → Fine (handle_mouse_input m x y clicked d)
  unfolding handle_mouse_input
  mouse-Fine m x y clicked d k =
      if-Holds Fine (clicked && on_game_screen d.client.current_screen)
        (click_at-Fine m (coord_to_board_pos d.client.game_state.local_team x y) d k) k

  pub keyboard-Fine :
      (m : Moment) (ch : Pressed) (d : Desk) → Fine d → Finest (handle_keyboard_board_input m ch d)
  unfolding handle_keyboard_board_input
  keyboard-Fine m ch d k =
      if-Holds Finest {x = board_key m ch d} {y = (false, d)}
        (on_game_screen d.client.current_screen) (board_key-Fine m ch d k) k

  typed_move-Fine :
      (m : Moment) (a b a' b' : ℕ) (d : Desk) → Fine d → Finest (typed_move m a b a' b' d)
  unfolding typed_move
  typed_move-Fine m a b a' b' d k =
      let c = d.client in
      let g = c.game_state.game in
      let from = some (a ∷ b ∷ []) in
      let to = some (a' ∷ b' ∷ []) in
      let q = send_move_request m.now m.sent from to c in
      let asked : Fine (ask q d) =
        after-Kept c q.client k (send_move_request-Keeps c k.1 m.now m.sent from to) in
      let said = λ (text : Text) (e : Desk) (h : Fine e). says-Fine m text e h in
      if-Holds Finest {x = (false, says m (codes "Invalid coordinates") d)}
        (off_range (pos a -ℤ pos b'a')
          || off_range (pos b -ℤ pos b'1')
          || off_range (pos a' -ℤ pos b'a')
          || off_range (pos b' -ℤ pos b'1'))
        (says-Fine m (codes "Invalid coordinates") d k)
        (if-Holds Finest {x = (false, says m (codes "No piece at source position") d)}
          (not (stands (g.board (pos b -ℤ pos b'1') (pos a -ℤ pos b'a'))))
          (says-Fine m (codes "No piece at source position") d k)
          (if-Holds Finest {x = (false, says m (codes "Not your turn!") d)}
            (not (team_eq g.side_to_move c.game_state.local_team))
            (says-Fine m (codes "Not your turn!") d k)
            (if-Holds Finest {x = (true, ask q d)}
              {y = (false, says m (codes "Failed to send move request.") (ask q d))}
              (q.result ==ℤ pos 0) asked
              (says-Fine m (codes "Failed to send move request.") (ask q d) asked))))

  notation-Fine : (m : Moment) (s : Text) (d : Desk) → Fine d → Finest (typed_notation m s d)
  notation-Fine m [] d k = says-Fine m _ d k
  notation-Fine m (a ∷ []) d k = says-Fine m _ d k
  notation-Fine m (a ∷ b ∷ []) d k = says-Fine m _ d k
  notation-Fine m (a ∷ b ∷ a' ∷ []) d k = says-Fine m _ d k
  notation-Fine m (a ∷ b ∷ a' ∷ b' ∷ []) d k = typed_move-Fine m a b a' b' d k
  notation-Fine m (a ∷ b ∷ a' ∷ b' ∷ c ∷ s) d k = says-Fine m _ d k

  submit-Fine : (m : Moment) (line : Text) (d : Desk) → Fine d → Fine (submit m line d)
  unfolding submit handle_chess_notation
  submit-Fine m line d k =
      let s = skip_blanks (drop 5 line) in
      if-Holds Fine (text_eq (take 5 line) (codes "move:"))
        (if-Holds Finest {x = typed_notation m s d} {y = (false, d)}
          (on_game_screen d.client.current_screen) (notation-Fine m s d k) k)
        (after-Kept d.client (send_chat_message m.now (some line) d.client).client k
          (send_chat_message-Keeps d.client k.1 m.now (some line)))

  -- Another line within its array.
  line-Kept :
      (x : ClientState) (mode : Bool) (line : List ℕ) (cursor : ℤ)
      → Kept x
      → length line ≡ 256
      → pos 0 ≤ℤ cursor
      → cursor ≤ℤ pos 255
      → Kept (record x {
        chat_input_mode = mode;
        chat_input_buffer = line;
        chat_input_cursor = cursor;
      })
  line-Kept x mode line cursor (link, k) size low high = (
    link,
    record {
      bounded = k.bounded;
      title_fits = k.title_fits;
      resign_fits = k.resign_fits;
      end_fits = k.end_fits;
      name_fits = k.name_fits;
      lost_fits = k.lost_fits;
      line_size = size;
      line_low = low;
      line_high = high;
    },
  )

  pub enable-Kept : (x : ClientState) → Kept x → Kept (enable_chat_input x)
  unfolding enable_chat_input
  enable-Kept x k = line-Kept x true (replicate 256 0) (pos 0) k refl (omega arith) (omega arith)

  pub disable-Kept : (x : ClientState) → Kept x → Kept (disable_chat_input x)
  unfolding disable_chat_input
  disable-Kept x k = line-Kept x false (replicate 256 0) (pos 0) k refl (omega arith) (omega arith)

  -- A byte at a place, with the cursor moved.
  byte-Kept :
      (x : ClientState) (i b : ℕ) (cursor : ℤ)
      → Kept x
      → pos 0 ≤ℤ cursor
      → cursor ≤ℤ pos 255
      → Kept
          (record x { chat_input_buffer = set x.chat_input_buffer i b; chat_input_cursor = cursor })
  byte-Kept x i b cursor k low high =
      line-Kept x x.chat_input_mode (set x.chat_input_buffer i b) cursor k
        (length-set x.chat_input_buffer i b ∙ k.1.line_size) low high

  backspace-Kept : (x : ClientState) → Kept x → Kept (press_backspace x)
  unfolding press_backspace
  backspace-Kept x k = elim (Bool-cases (ltb_ℤ (pos 0) x.chat_input_cursor)) [
    | inl more ↦ rw more (
        byte-Kept x (pos_part (x.chat_input_cursor -ℤ pos 1)) 0 (x.chat_input_cursor -ℤ pos 1) k
          (ground (arith, -ℤ_parts x.chat_input_cursor (pos 1)))
          (ground (arith, -ℤ_parts x.chat_input_cursor (pos 1), k.1.line_high)))
    | inr none_left ↦ rw none_left k
  ]

  type_byte-Kept : (b : ℕ) (x : ClientState) → Kept x → Kept (type_byte b x)
  unfolding type_byte
  type_byte-Kept b x k =
      let cursor = x.chat_input_cursor in
      let test = leb 32 b && leb b 126 && leb_ℤ (pos 0) cursor && ltb_ℤ cursor (pos 255) in
      elim (Bool-cases test) [
        | inl room ↦ rw room (
            byte-Kept x (pos_part cursor) b (cursor +ℤ pos 1) k
              (ground (arith, +ℤ_parts cursor (pos 1))) (ground (arith, +ℤ_parts cursor (pos 1))))
        | inr refused ↦ rw refused k
      ]

  press_enter-Fine : (m : Moment) (d : Desk) → Fine d → Fine (press_enter m d)
  unfolding press_enter
  press_enter-Fine m d k =
      let c = write_byte 0 d.client in
      let ended =
        byte-Kept d.client (pos_part d.client.chat_input_cursor) 0 d.client.chat_input_cursor k
          k.1.line_low k.1.line_high in
      let submitted = submit m (c_string c.chat_input_buffer) (record d { client = c }) in
      if-Holds (λ (e : Desk). Kept (disable_chat_input e.client))
        (ltb_ℤ (pos 0) d.client.chat_input_cursor)
        (disable-Kept submitted.client (submit-Fine m _ (record d { client = c }) ended))
        (disable-Kept d.client k)

  chat_key-Fine : (m : Moment) (ch : Pressed) (d : Desk) → Fine d → Fine (chat_key m ch d)
  unfolding chat_key
  chat_key-Fine m arrow_up d k = k
  chat_key-Fine m arrow_down d k = k
  chat_key-Fine m arrow_left d k = k
  chat_key-Fine m arrow_right d k = k
  chat_key-Fine m backspace d k = backspace-Kept d.client k
  chat_key-Fine m (byte b) d k =
      let escaped : Desk = record d { client = disable_chat_input d.client } in
      let erased : Desk = record d { client = press_backspace d.client } in
      let typed : Desk = record d { client = type_byte b d.client } in
      let edited = if (b == 8) || (b == 127) then erased else typed in
      if-Holds Fine {x = press_enter m d} {y = if b == 27 then escaped else edited}
        ((b == b'\n') || (b == b'\r')) (press_enter-Fine m d k)
        (if-Holds Fine {x = escaped} {y = edited} (b == 27) (disable-Kept d.client k) (
          if-Holds Fine {x = erased} {y = typed} ((b == 8) || (b == 127))
            (backspace-Kept d.client k) (type_byte-Kept b d.client k)))

  pub chat-Fine : (m : Moment) (ch : Pressed) (d : Desk) → Fine d → Fine (handle_chat_input m ch d)
  unfolding handle_chat_input
  chat-Fine m ch d k =
      if-Holds Fine {x = chat_key m ch d} {y = d} d.client.chat_input_mode (chat_key-Fine m ch d k)
        k
