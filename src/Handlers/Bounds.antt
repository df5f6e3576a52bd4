-- ===== src/Handlers/Bounds.antt =====
-- The sizes of the client's copy of a game under the steps of the handlers (client/handlers/).
use mathlib.Core.Path.{subst}
use multiplay_chess.Prelude.{
  ◌-◌, if-Holds, set, replicate, get_elem?, Option-cases, some, some-injective, ℕ, zero, suc, ◌≤◌,
  ◌≡◌, refl, ap, ◌∙◌, Bool, Bool-cases, true, false, inl, inr, List, [], ◌∷◌, ◌++◌, length, take,
  length-set, ℤ, pos, ◌≤ℤ◌, ltb_ℤ, not, +ℤ_parts, leb, ◌==ℤ◌, ◌&&◌, Text, arith,
}
use multiplay_chess.Piece.{Team, white, black}
use multiplay_chess.Protocol.{MatchGameResponse, MoveBroadcast}
use multiplay_chess.Client.{
  max_chat_messages, ChatMessage, GameState, move_down, make_room, add_chat_message,
  sync_timer_from_server,
}
use multiplay_chess.Client.Chat.{IsChat, add_chat_message_lem}
use multiplay_chess.ClientState.{ClientState, add_chat_message_safe}
use multiplay_chess.Pgn.{Disk, win_of, loss_of, result_of, save_current_game}
use multiplay_chess.Handlers.Notices.{Around, begin_game}
use multiplay_chess.Handlers.Endings.{resign_result}
use multiplay_chess.Handlers.MoveBroadcast.{already_recorded, record_move, mark_check, sync_clocks}

-- What holds of every element.
abbrev pub Each {ℓ} : {A : Type ℓ} → (A → Type 0) → List A → Type 0
Each P [] = Unit
Each P (x ∷ xs) = P x × Each P xs

-- A chat message within its two arrays, and a move within its.
abbrev pub MessageFits : ChatMessage → Type 0
MessageFits m = (length m.sender ≤ 31) × (length m.message ≤ 255)

abbrev pub MoveFits : Text → Type 0
MoveFits m = length m ≤ 5

-- The game: fifty places of chat, 512 of moves, and the strings with their closing zero.
pub record IsBounded (s : GameState) : Type 0 where
  pub chat : IsChat s
  pub moves_size : length s.pgn_moves ≡ 512
  pub count_low : pos 0 ≤ℤ s.pgn_move_count
  pub count_high : s.pgn_move_count ≤ℤ pos 512
  pub local_fits : length s.local_player ≤ 31
  pub opponent_fits : length s.opponent_player ≤ 31
  pub message_fits : length s.opponent_disconnect_message ≤ 255
  pub result_fits : length s.pgn_result ≤ 7
  pub texts_fit : Each MessageFits s.chat_messages
  pub moves_fit : Each MoveFits s.pgn_moves

pub length-take_le {ℓ} : {A : Type ℓ} (n : ℕ) (xs : List A) → length (take n xs) ≤ n
length-take_le zero xs = omega arith
length-take_le (suc n) [] = omega arith
length-take_le (suc n) (x ∷ xs) = omega (arith, length-take_le n xs)

module _ {A : Type 0} (P : A → Type 0) where
  Each-set : (xs : List A) (i : ℕ) (v : A) → Each P xs → P v → Each P (set xs i v)
  Each-set [] i v h p = tt
  Each-set (x ∷ xs) zero v (px, h) p = (p, h)
  Each-set (x ∷ xs) (suc i) v (px, h) p = (px, Each-set xs i v h p)

  Each-get : (xs : List A) (i : ℕ) (v : A) → Each P xs → get_elem? xs i ≡ some v → P v
  Each-get [] i v h e = absurd (cc)
  Each-get (x ∷ xs) zero v (px, h) e = subst P (some-injective e) px
  Each-get (x ∷ xs) (suc i) v (px, h) e = Each-get xs i v h e

  Each-move_down : (n i : ℕ) (xs : List A) → Each P xs → Each P (move_down n i xs)
  unfolding move_down
  Each-move_down zero i xs h = h
  Each-move_down (suc n) i xs h = elim (Option-cases (get_elem? xs i)) [
    | inl out ↦ rw (out, move_down) h
    | inr (v, here) ↦
        rw (here, move_down)
          (Each-move_down n (suc i) (set xs (i - 1) v)
            (Each-set xs (i - 1) v h (Each-get xs i v h here)))
  ]

  pub Each-replicate : (n : ℕ) (x : A) → P x → Each P (replicate n x)
  Each-replicate zero x p = tt
  Each-replicate (suc n) x p = (p, Each-replicate n x p)

-- A new message is cut to its arrays, and the others move as they are.
add_chat_message-fits :
    (now : ℤ) (sender message : Text) (s : GameState)
    → Each MessageFits s.chat_messages
    → Each MessageFits (add_chat_message now sender message s).chat_messages
unfolding add_chat_message make_room
add_chat_message-fits now sender message s h =
    Each-set MessageFits (make_room s).chat_messages (make_room s).chat_count
      (record { sender = take 31 sender; message = take 255 message; timestamp = now })
      (if-Holds (λ (t : GameState). Each MessageFits t.chat_messages)
        (leb max_chat_messages s.chat_count) (Each-move_down MessageFits 49 1 s.chat_messages h) h)
      (length-take_le 31 sender, length-take_le 255 message)

-- The chat buffer is all that a new message touches.
abbrev pub with_chat : List ChatMessage → ℕ → GameState → GameState
with_chat ms n s = record s { chat_messages = ms; chat_count = n }

pub add_chat_message-with_chat :
    (now : ℤ) (sender message : Text) (s : GameState)
    → (ms : List ChatMessage) × (n : ℕ) × (add_chat_message now sender message s ≡ with_chat ms n s)
add_chat_message-with_chat now sender message s =
    let t = add_chat_message now sender message s in
    (t.chat_messages, t.chat_count, chat_alone now sender message s)
  where
    chat_alone :
        (now : ℤ) (sender message : Text) (s : GameState)
        → add_chat_message now sender message s
          ≡ with_chat
              (add_chat_message now sender message s).chat_messages
              (add_chat_message now sender message s).chat_count
              s
    chat_alone now sender message s =
        unfold add_chat_message make_room in
        elim (Bool-cases (leb max_chat_messages s.chat_count)) [
          | inl full ↦ rw full refl
          | inr space ↦ rw space refl
        ]

-- A chat message leaves the position.
pub told-game :
    (now : ℤ) (sender message : Text) (c : ClientState)
    → (add_chat_message_safe now sender message c).game_state.game ≡ c.game_state.game
unfolding add_chat_message_safe
told-game now sender message c =
    let (ms, n, e) = add_chat_message-with_chat now sender message c.game_state in rw e refl

win_of_fits : (t : Team) → (length (win_of t) ≤ 7) × (length (loss_of t) ≤ 7)
win_of_fits white = (omega arith, omega arith)
win_of_fits black = (omega arith, omega arith)

pub resign_result_fits : (i_resigned : Bool) (t : Team) → length (resign_result i_resigned t) ≤ 7
resign_result_fits true t = (win_of_fits t).1
resign_result_fits false t = (win_of_fits t).0

result_of_fits : (s : GameState) → length (result_of s) ≤ 7
unfolding result_of
result_of_fits s = let (win, loss) = win_of_fits s.local_team in ground arith

-- The bounds but those of the chat, the count and the result, which an operation moves.
module _ {s : GameState} (b : IsBounded s) where
  open b use {
    moves_size, count_low, count_high, local_fits, opponent_fits, message_fits, result_fits,
    moves_fit,
  }

  pub with_chat-IsBounded :
      (ms : List ChatMessage) (n : ℕ)
      → IsChat (with_chat ms n s)
      → Each MessageFits ms
      → IsBounded (with_chat ms n s)
  with_chat-IsBounded ms n chat texts = record {
    texts_fit = texts;
    chat = chat;
    moves_size = moves_size;
    count_low = count_low;
    count_high = count_high;
    local_fits = local_fits;
    opponent_fits = opponent_fits;
    message_fits = message_fits;
    result_fits = result_fits;
    moves_fit = moves_fit;
  }

  pub add_chat_message-IsBounded :
      (now : ℤ) (sender message : Text) → IsBounded (add_chat_message now sender message s)
  add_chat_message-IsBounded now sender message =
      let chat = (add_chat_message_lem now sender message s b.chat).1 in
      let texts = add_chat_message-fits now sender message s b.texts_fit in
      let (ms, n, e) = add_chat_message-with_chat now sender message s in
      rw e (with_chat-IsBounded ms n (rw e at chat) (rw e at texts))

  pub with_result-IsBounded :
      (result : Text) → length result ≤ 7 → IsBounded (record s { pgn_result = result })
  with_result-IsBounded result fits = record {
    texts_fit = b.texts_fit;
    chat = record { size = b.chat.size; within = b.chat.within };
    moves_size = moves_size;
    count_low = count_low;
    count_high = count_high;
    local_fits = local_fits;
    opponent_fits = opponent_fits;
    message_fits = message_fits;
    result_fits = fits;
    moves_fit = moves_fit;
  }

  pub save_current_game-IsBounded : (disk : Disk) → IsBounded (save_current_game disk s).1
  unfolding save_current_game
  save_current_game-IsBounded disk = elim (Bool-cases (s.pgn_move_count ==ℤ pos 0)) [
    | inl none_yet ↦ rw none_yet b
    | inr some_moves ↦ elim (Bool-cases disk.folder_ready) [
      | inl ready ↦ rw (some_moves, ready) (with_result-IsBounded _ (result_of_fits s))
      | inr no_folder ↦ rw (some_moves, no_folder) b
    ]
  ]

  -- What reads none of the bounded fields leaves the bounds.
  pub same-IsBounded :
      (t : GameState)
      → IsChat t
      → t.chat_messages ≡ s.chat_messages
      → t.pgn_moves ≡ s.pgn_moves
      → t.pgn_move_count ≡ s.pgn_move_count
      → t.local_player ≡ s.local_player
      → t.opponent_player ≡ s.opponent_player
      → t.opponent_disconnect_message ≡ s.opponent_disconnect_message
      → t.pgn_result ≡ s.pgn_result
      → IsBounded t
  same-IsBounded t chat texts moves count local opponent message result = record {
    texts_fit = rw texts b.texts_fit;
    chat = chat;
    moves_size = ap length moves ∙ moves_size;
    count_low = rw count count_low;
    count_high = rw count count_high;
    local_fits = rw local local_fits;
    opponent_fits = rw opponent opponent_fits;
    message_fits = rw message message_fits;
    result_fits = rw result result_fits;
    moves_fit = rw moves moves_fit;
  }

  pub record_move-IsBounded : (from to : Text) → IsBounded (record_move from to s)
  unfolding record_move
  record_move-IsBounded from to =
      let move = take 5 (from ++ to) in
      elim (Bool-cases (ltb_ℤ s.pgn_move_count (pos 512) && not (already_recorded s move))) [
        | inl room ↦ rw room (record {
          chat = record { size = b.chat.size; within = b.chat.within };
          moves_size = length-set s.pgn_moves _ move ∙ moves_size;
          count_low = ground (arith, +ℤ_parts s.pgn_move_count (pos 1));
          count_high = ground (arith, +ℤ_parts s.pgn_move_count (pos 1));
          local_fits = local_fits;
          opponent_fits = opponent_fits;
          message_fits = message_fits;
          result_fits = result_fits;
          texts_fit = b.texts_fit;
          moves_fit =
              Each-set MoveFits s.pgn_moves _ move moves_fit (length-take_le 5 (from ++ to));
        })
        | inr refused ↦ rw refused b
      ]

  pub mark_check-IsBounded : (m : MoveBroadcast) → IsBounded (mark_check m s)
  mark_check-IsBounded m =
      same-IsBounded (mark_check m s)
        (record { size = ground (arith, b.chat.size); within = ground (arith, b.chat.within) })
        (ground arith) (ground arith) (ground arith) (ground arith) (ground arith) (ground arith)
        (ground arith)

  pub sync_clocks-IsBounded : (a : Around) (m : MoveBroadcast) → IsBounded (sync_clocks a m s)
  unfolding sync_timer_from_server
  sync_clocks-IsBounded a m =
      same-IsBounded (sync_clocks a m s)
        (record { size = ground (arith, b.chat.size); within = ground (arith, b.chat.within) })
        (ground arith) (ground arith) (ground arith) (ground arith) (ground arith) (ground arith)
        (ground arith)

  pub begin_game-IsBounded :
      (a : Around) (r : MatchGameResponse) (username : Text) → IsBounded (begin_game a r username s)
  unfolding begin_game
  begin_game-IsBounded a r username = record {
    chat = record { size = b.chat.size; within = b.chat.within };
    moves_size = moves_size;
    count_low = omega arith;
    count_high = omega arith;
    local_fits = length-take_le 31 username;
    opponent_fits = length-take_le 31 r.opponent_name;
    message_fits = message_fits;
    result_fits = omega arith;
    texts_fit = b.texts_fit;
    moves_fit = moves_fit;
  }
