-- ===== src/Framing/Sending.antt =====
-- The loop of `send_all` in common/network.c.
use multiplay_chess.Prelude.{
  ℕ, suc, ◌+◌, ◌≤◌, ◌≡◌, ◌∙◌, ap, List, [], ◌∷◌, ◌++◌, length, take, drop, ++_nil, ++_assoc,
  take-drop, length-drop, pos, arith, Text,
}
use multiplay_chess.Framing.{Send, wrote, signal, nothing, broken, returned, send_loop, send_all}

-- Calls that write something or are interrupted by a signal, and at least how much they write.
abbrev pub Healthy : List Send → Type 0
Healthy [] = Unit
Healthy (wrote n ∷ calls) = Healthy calls
Healthy (signal ∷ calls) = Healthy calls
Healthy (nothing ∷ calls) = ⊥
Healthy (broken ∷ calls) = ⊥

abbrev pub writes : List Send → ℕ
writes [] = 0
writes (wrote n ∷ calls) = suc (writes calls)
writes (_ ∷ calls) = writes calls

-- The stream already has `stream`; `total` bytes are counted.
send_loop_lem :
    (calls : List Send) (buf : Text) (total : ℕ) (stream : Text)
    → Healthy calls
    → length buf ≤ writes calls
    → send_loop calls buf total stream ≡ returned (pos (total + length buf)) (stream ++ buf)
unfolding send_loop
send_loop_lem calls [] total stream h enough =
    rw (++_nil stream) (ap (λ k. returned (pos k) stream) (omega arith))
send_loop_lem [] (b ∷ bs) total stream h enough = absurd (omega arith)
send_loop_lem (wrote n ∷ calls) (b ∷ bs) total stream h enough =
    let left = drop n bs in
    let cut = length-drop n bs in
    let whole =
      ++_assoc stream (b ∷ take n bs) left ∙ ap (λ r. stream ++ (b ∷ r)) (take-drop n bs) in
    send_loop_lem calls left (total + length (b ∷ take n bs)) (stream ++ (b ∷ take n bs)) h
      (omega arith)
    ∙ (ap (λ k. returned (pos k) ((stream ++ (b ∷ take n bs)) ++ left)) (omega arith)
        ∙ ap (returned (pos (total + length (b ∷ bs)))) whole)
send_loop_lem (signal ∷ calls) (b ∷ bs) total stream h enough =
    send_loop_lem calls (b ∷ bs) total stream h enough
send_loop_lem (nothing ∷ calls) (b ∷ bs) total stream h enough = absurd h
send_loop_lem (broken ∷ calls) (b ∷ bs) total stream h enough = absurd h

-- If no call fails and at least as many of them write as there are bytes, `send_all` returns, after
-- any signals and however the kernel cuts the bytes up: it answers their number, and they are on the
-- stream once each and in order.
pub send_all_lem :
    (calls : List Send) (buf : Text)
    → Healthy calls
    → length buf ≤ writes calls
    → send_all calls buf ≡ returned (pos (length buf)) buf
unfolding send_all
send_all_lem calls buf h enough =
    send_loop_lem calls buf 0 [] h enough ∙ ap (λ k. returned (pos k) buf) (omega arith)
