-- ===== src/Framing/Receiving.antt =====
-- The loop of `recv_all` in common/network.c.
use multiplay_chess.Prelude.{
  ℕ, zero, suc, ◌-◌, ◌≤◌, ◌≡◌, refl, sym, ◌∙◌, ap, Bool-cases, leb, inl, inr, List, [], ◌∷◌, ◌++◌,
  length, take, drop, ++_nil, ++_assoc, length-++, take_inside, drop_inside, take_behind,
  drop_behind, arith, Text,
}
use multiplay_chess.Framing.{Event, bytes, stopped, closed, failure, got, push, recv_loop, recv_all}

-- Bytes and signals alone.
abbrev pub Open : List Event → Type 0
Open [] = Unit
Open (bytes b bs ∷ es) = Open es
Open (stopped ∷ es) = Open es
Open (closed ∷ es) = ⊥
Open (failure ∷ es) = ⊥

-- The bytes that wait, in order.
abbrev pub flat : List Event → Text
flat [] = []
flat (bytes b bs ∷ es) = (b ∷ bs) ++ flat es
flat (_ ∷ es) = flat es

-- What is left after a call that took all it wanted.
flat-push : (bs : Text) (es : List Event) → flat (push bs es) ≡ bs ++ flat es
flat-push [] es = refl
flat-push (b ∷ bs) es = refl

push-Open : (bs : Text) (es : List Event) → Open es → Open (push bs es)
push-Open [] es h = h
push-Open (b ∷ bs) es h = h

-- The loop ends with the first n of the bytes that wait, and leaves the others.
abbrev pub Takes : ℕ → List Event → Text → Type 0
Takes n es buf =
    (rest : List Event) × (recv_loop n es buf ≡ got (buf ++ take n (flat es)) rest)
    × Open rest
    × (flat rest ≡ drop n (flat es))

recv_loop_lem :
    (n : ℕ) (es : List Event) (buf : Text) → Open es → n ≤ length (flat es) → Takes n es buf
unfolding recv_loop
recv_loop_lem zero es buf h enough = (es, ap (λ b. got b es) (sym (++_nil buf)), h, refl)
recv_loop_lem (suc k) [] buf h enough = absurd (omega arith)
recv_loop_lem (suc k) (stopped ∷ es) buf h enough = recv_loop_lem (suc k) es buf h enough
recv_loop_lem (suc k) (closed ∷ es) buf h enough = absurd h
recv_loop_lem (suc k) (failure ∷ es) buf h enough = absurd h
recv_loop_lem (suc k) (bytes b bs ∷ es) buf h enough =
    elim (Bool-cases (leb (suc k) (length (b ∷ bs)))) [
      | inl inside ↦
          let fits : suc k ≤ length (b ∷ bs) = ground arith in
          (
            push (drop (suc k) (b ∷ bs)) es,
            rw inside (
                ap (λ t. got (buf ++ t) (push (drop (suc k) (b ∷ bs)) es))
                  (sym (take_inside (suc k) (b ∷ bs) (flat es) fits))),
            push-Open (drop (suc k) (b ∷ bs)) es h,
            flat-push (drop (suc k) (b ∷ bs)) es
                ∙ sym (drop_inside (suc k) (b ∷ bs) (flat es) fits),
          )
      | inr behind ↦
          let past : length (b ∷ bs) ≤ suc k = ground arith in
          let left = suc k - length (b ∷ bs) in
          let (rest, e, o, f) =
            recv_loop_lem left es (buf ++ (b ∷ bs)) h
              (omega (arith, length-++ (b ∷ bs) (flat es))) in
          (
            rest,
            rw behind (
                e
                ∙ ap (λ t. got t rest)
                    (++_assoc buf (b ∷ bs) (take left (flat es))
                      ∙ ap (λ t. buf ++ t) (sym (take_behind (suc k) (b ∷ bs) (flat es) past)))),
            o,
            f ∙ sym (drop_behind (suc k) (b ∷ bs) (flat es) past),
          )
    ]

-- Where at least n bytes wait, with no end and no error among them, `recv_all` reads the first n,
-- however they are cut up and whatever signals come between, and leaves the others in order.
pub recv_all_lem :
    (n : ℕ) (es : List Event)
    → Open es
    → n ≤ length (flat es)
    → (rest : List Event) × (recv_all n es ≡ got (take n (flat es)) rest)
      × Open rest
      × (flat rest ≡ drop n (flat es))
unfolding recv_all
recv_all_lem n es h enough = recv_loop_lem n es [] h enough
