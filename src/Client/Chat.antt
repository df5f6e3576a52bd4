-- ===== src/Client/Chat.antt =====
-- The chat buffer of the client (client/game_state.c, `add_chat_message`).
use multiplay_chess.Prelude.{
  ℕ, zero, suc, ◌-◌, ◌≤◌, ◌<◌, ◌≡◌, refl, sym, ◌∙◌, ap, Bool-cases, if◌then◌else◌, leb, inl, inr,
  Option-cases, List, [], ◌∷◌, ◌++◌, length, get_elem?, set, length-set, take, take_all, ℤ, arith,
  Text,
}
use multiplay_chess.Client.{
  max_chat_messages, ChatMessage, GameState, move_down, make_room, add_chat_message,
}

pred_suc : (n : ℕ) → suc n - 1 ≡ n
pred_suc n = omega arith

module _ {ℓ} {A : Type ℓ} where
  length-take : (xs : List A) (n : ℕ) → n ≤ length xs → length (take n xs) ≡ n
  length-take xs zero h = refl
  length-take [] (suc n) h = absurd (omega arith)
  length-take (x ∷ xs) (suc n) h = ap suc (length-take xs n (omega arith))

  take-set :
      (xs : List A) (n : ℕ) (v : A)
      → n < length xs
      → take (suc n) (set xs n v) ≡ take n xs ++ (v ∷ [])
  take-set [] n v h = absurd (omega arith)
  take-set (x ∷ xs) zero v h = refl
  take-set (x ∷ xs) (suc n) v h = ap (λ r. x ∷ r) (take-set xs n v (omega arith))

  length-move_down : (n i : ℕ) (xs : List A) → length (move_down n i xs) ≡ length xs
  unfolding move_down
  length-move_down zero i xs = refl
  length-move_down (suc n) i xs = elim (Option-cases (get_elem? xs i)) [
    | inl out ↦ rw (out, move_down)
    | inr (v, here) ↦
        rw (here, move_down)
          (length-move_down n (suc i) (set xs (i - 1) v) ∙ length-set xs (i - 1) v)
  ]

  -- The places before the loop's are left alone.
  move_down-cons :
      (n i : ℕ) (x : A) (xs : List A)
      → move_down n (suc (suc i)) (x ∷ xs) ≡ x ∷ move_down n (suc i) xs
  unfolding move_down
  move_down-cons zero i x xs = refl
  move_down-cons (suc n) i x xs = elim (Option-cases (get_elem? xs (suc i))) [
    | inl out ↦ rw (out, move_down)
    | inr (v, here) ↦
        rw (here, move_down, pred_suc i, pred_suc (suc i)) (move_down-cons n (suc i) x (set xs i v))
  ]

  -- The loop over a whole array drops its first element.
  move_down_lem :
      (n : ℕ) (x : A) (xs : List A) → length xs ≡ n → take n (move_down n 1 (x ∷ xs)) ≡ xs
  unfolding move_down
  move_down_lem zero x [] h = refl
  move_down_lem zero x (y ∷ xs) h = absurd (omega arith)
  move_down_lem (suc n) x [] h = absurd (omega arith)
  move_down_lem (suc n) x (y ∷ xs) h =
      rw (move_down-cons n 0 y (y ∷ xs)) (ap (λ r. y ∷ r) (move_down_lem n y xs (omega arith)))

-- The messages in the buffer, the oldest first.
abbrev pub shown : GameState → List ChatMessage
shown s = take s.chat_count s.chat_messages

-- The buffer has its size, and the count is within it.
pub record IsChat (s : GameState) : Type 0 where
  pub size : length s.chat_messages ≡ max_chat_messages
  pub within : s.chat_count ≤ max_chat_messages

abbrev pub tail : {A : Type 0} → List A → List A
tail [] = []
tail (x ∷ xs) = xs

-- What a chat of at most fifty messages keeps when another comes.
abbrev pub latest : List ChatMessage → List ChatMessage
latest ms = if leb max_chat_messages (length ms) then tail ms else ms

make_room-IsChat :
    (s : GameState) → IsChat s → IsChat (make_room s) × ((make_room s).chat_count < 50)
unfolding make_room
make_room-IsChat s c = elim (Bool-cases (leb max_chat_messages s.chat_count)) [
  | inl full ↦ rw full (
    record { size = length-move_down 49 1 s.chat_messages ∙ c.size; within = omega arith },
    omega arith,
  )
  | inr space ↦ rw space (c, ground (arith, c.within))
]

full_room :
    (ms : List ChatMessage) → length ms ≡ 50 → take 49 (move_down 49 1 ms) ≡ tail (take 50 ms)
full_room [] h = absurd (omega arith)
full_room (x ∷ xs) h =
    let n : length xs ≡ 49 = omega arith in
    move_down_lem 49 x xs n ∙ (sym (take_all xs) ∙ ap (λ k. take k xs) n)

latest_full : (ms : List ChatMessage) → length ms ≡ 50 → latest ms ≡ tail ms
latest_full ms h = rw h

latest_space : (ms : List ChatMessage) → length ms < 50 → latest ms ≡ ms
latest_space ms h = ground arith

shown-make_room : (s : GameState) → IsChat s → shown (make_room s) ≡ latest (shown s)
unfolding make_room
shown-make_room s c = elim (Bool-cases (leb max_chat_messages s.chat_count)) [
  | inl full ↦
      let n : s.chat_count ≡ 50 = ground (arith, c.within) in
      let m = length-take s.chat_messages s.chat_count (omega (arith, c.size, c.within)) in
      rw full (
        full_room s.chat_messages c.size
        ∙ (ap (λ k. tail (take k s.chat_messages)) (sym n) ∙ sym (latest_full (shown s) (m ∙ n))))
  | inr space ↦
      let m = length-take s.chat_messages s.chat_count (omega (arith, c.size, c.within)) in
      rw space (sym (latest_space (shown s) (ground arith)))
]

abbrev pub cut_message : ℤ → Text → Text → ChatMessage
cut_message now sender message = record {
  sender = take 31 sender;
  message = take 255 message;
  timestamp = now;
}

-- On a buffer of fifty places whose count is within them, a new message comes last, cut to its
-- sizes; the earlier messages stay in their order, of fifty the oldest goes; and the buffer is again
-- such a buffer.
pub add_chat_message_lem :
    (now : ℤ) (sender message : Text) (s : GameState)
    → IsChat s
    → (shown (add_chat_message now sender message s)
        ≡ latest (shown s) ++ (cut_message now sender message ∷ []))
      × IsChat (add_chat_message now sender message s)
unfolding add_chat_message
add_chat_message_lem now sender message s c =
    let (c', space) = make_room-IsChat s c in
    let r = make_room s in
    let m = cut_message now sender message in
    (
      take-set r.chat_messages r.chat_count m (omega (arith, c'.size))
          ∙ ap (λ ms. ms ++ (m ∷ [])) (shown-make_room s c),
      record { size = length-set r.chat_messages r.chat_count m ∙ c'.size; within = omega arith },
    )
