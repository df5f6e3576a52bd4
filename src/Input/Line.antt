-- ===== src/Input/Line.antt =====
-- The array behind the line of the chat (client/ui/chat.c), and the plain text in it.
use multiplay_chess.Prelude.{
  +ℤ_one, -ℤ_one, ℕ, zero, suc, ◌-◌, ◌≤◌, ◌≡◌, refl, sym, ap, ◌∙◌, ◌&&◌, ltb, leb, Bool-cases, true,
  inl, inr, if◌then◌else◌, if-True, if-False, List, [], ◌∷◌, ◌++◌, ++_assoc, length, length-++,
  replicate, set, ℤ, pos, ◌+ℤ◌, ◌-ℤ◌, pos_part, leb_ℤ, ltb_ℤ, Text, c_string, arith,
}
use multiplay_chess.ClientState.{ClientState}
use multiplay_chess.Input.Chat.{write_byte, press_backspace, type_byte}

-- The plain line: a text that grows and shrinks at its end, up to 255 bytes.
abbrev pub drop_last : Text → Text
drop_last [] = []
drop_last (a ∷ []) = []
drop_last (a ∷ b ∷ s) = a ∷ drop_last (b ∷ s)

abbrev pub append : ℕ → Text → Text
append b s = if leb 32 b && leb b 126 && ltb (length s) 255 then s ++ (b ∷ []) else s

-- The array holds the line with zeros behind it, and the cursor stands at its end.
pub record Holds (s : Text) (c : ClientState) : Type 0 where
  pub array : c.chat_input_buffer ≡ s ++ replicate (256 - length s) 0
  pub at_end : c.chat_input_cursor ≡ pos (length s)
  pub fits : length s ≤ 255
  pub string : c_string s ≡ s

abbrev pub zeros : ℕ → List ℕ
zeros k = replicate k 0

pub zeros_next : (k n : ℕ) → k ≡ suc n → replicate k 0 ≡ 0 ∷ zeros n
zeros_next k n h = ap (λ m. zeros m) h

pub set_end :
    (s : Text) (x b : ℕ) (rest : Text) → set (s ++ (x ∷ rest)) (length s) b ≡ s ++ (b ∷ rest)
set_end [] x b rest = refl
set_end (a ∷ s) x b rest = ap (λ r. a ∷ r) (set_end s x b rest)

pub c_string-++ : (s t : Text) → c_string s ≡ s → c_string (s ++ t) ≡ s ++ c_string t
c_string-++ [] t h = refl
c_string-++ (zero ∷ s) t h = absurd (cc)
c_string-++ (suc a ∷ s) t h = ap (λ r. suc a ∷ r) (c_string-++ s t (tail_eq h))
  where
    tail_eq : suc a ∷ c_string s ≡ suc a ∷ s → c_string s ≡ s
    tail_eq e = cc

pub append-Holds :
    (s : Text) (c : ClientState) (b : ℕ)
    → Holds s c
    → (leb 32 b && leb b 126 && ltb (length s) 255) ≡ true
    → Holds
        (s ++ (b ∷ []))
        (record (write_byte b c) { chat_input_cursor = c.chat_input_cursor +ℤ pos 1 })
append-Holds s c zero h e = absurd (ground arith)
append-Holds s c (suc b) h e =
    let n = length s in
    let len : length (s ++ (suc b ∷ [])) ≡ suc n = omega (arith, length-++ s (suc b ∷ [])) in
    let left = 256 - length (s ++ (suc b ∷ [])) in
    let room : 256 - n ≡ suc left = ground (arith, len) in
    record {
      array =
          ap (λ (p : List ℕ × ℤ). set p.0 (pos_part p.1) (suc b)) (pair_eq h.array h.at_end)
          ∙ (ap (λ z. set (s ++ z) n (suc b)) (zeros_next (256 - n) left room)
              ∙ (set_end s 0 (suc b) (zeros left) ∙ sym (++_assoc s (suc b ∷ []) (zeros left))));
      at_end = ap (λ z. z +ℤ pos 1) h.at_end ∙ (+ℤ_one n ∙ ap pos (sym len));
      fits = ground (arith, len);
      string = c_string-++ s (suc b ∷ []) h.string;
    }
  where
    pair_eq : {x y : List ℕ} {u v : ℤ} → x ≡ y → u ≡ v → ◌≡◌ {A = List ℕ × ℤ} (x, u) (y, v)
    pair_eq p q = cc

pub type_byte-Holds :
    (s : Text) (c : ClientState) (b : ℕ) → Holds s c → Holds (append b s) (type_byte b c)
unfolding type_byte
type_byte-Holds s c b h =
    let test =
      leb 32 b
      && leb b 126
      && leb_ℤ (pos 0) c.chat_input_cursor
      && ltb_ℤ c.chat_input_cursor (pos 255) in
    let same : test ≡ (leb 32 b && leb b 126 && ltb (length s) 255) = ground (arith, h.at_end) in
    elim (Bool-cases (leb 32 b && leb b 126 && ltb (length s) 255)) [
      | inl printable ↦
          if-True (λ t. Holds t (type_byte b c)) _ _ _ printable
            (if-True (λ d. Holds (s ++ (b ∷ [])) d) _ _ test (same ∙ printable)
              (append-Holds s c b h printable))
      | inr other ↦
          if-False (λ t. Holds t (type_byte b c)) _ _ _ other
            (if-False (λ d. Holds s d) _ _ test (same ∙ other) h)
    ]

-- A line that is not empty is its rest and its last byte.
pub last_byte :
    (a : ℕ) (s : Text)
    → (x : ℕ) × (a ∷ s ≡ drop_last (a ∷ s) ++ (x ∷ []))
      × (length (a ∷ s) ≡ suc (length (drop_last (a ∷ s))))
last_byte a [] = (a, refl, refl)
last_byte a (b ∷ s) = let (x, e, n) = last_byte b s in (x, ap (λ r. a ∷ r) e, ap suc n)

pub c_string_front : (s : Text) (x : ℕ) → c_string (s ++ (x ∷ [])) ≡ s ++ (x ∷ []) → c_string s ≡ s
c_string_front [] x h = refl
c_string_front (zero ∷ s) x h = absurd (cc)
c_string_front (suc a ∷ s) x h = ap (λ r. suc a ∷ r) (c_string_front s x (tail_eq h))
  where
    tail_eq :
        suc a ∷ c_string (s ++ (x ∷ [])) ≡ suc a ∷ (s ++ (x ∷ []))
        → c_string (s ++ (x ∷ [])) ≡ s ++ (x ∷ [])
    tail_eq e = cc

pub press_backspace-Holds :
    (s : Text) (c : ClientState) → Holds s c → Holds (drop_last s) (press_backspace c)
unfolding press_backspace
press_backspace-Holds [] c h =
    if-False (λ d. Holds [] d) _ _ (ltb_ℤ (pos 0) c.chat_input_cursor) (ground (arith, h.at_end)) h
press_backspace-Holds (a ∷ s) c h =
    let (x, e, n) = last_byte a s in
    let t = drop_last (a ∷ s) in
    let back : c.chat_input_cursor -ℤ pos 1 ≡ pos (length t) =
      ap (λ z. z -ℤ pos 1) (h.at_end ∙ ap pos n) ∙ -ℤ_one (length t) in
    let left = 256 - length (a ∷ s) in
    let whole : c.chat_input_buffer ≡ t ++ (x ∷ zeros left) =
      h.array ∙ (ap (λ r. r ++ zeros left) e ∙ ++_assoc t (x ∷ []) (zeros left)) in
    let fits = h.fits in
    if-True (λ d. Holds t d) _ _ (ltb_ℤ (pos 0) c.chat_input_cursor) (ground (arith, h.at_end))
      (record {
        array =
            ap (λ z. set c.chat_input_buffer (pos_part z) 0) back
            ∙ (ap (λ l. set l (length t) 0) whole
                ∙ (set_end t x 0 (zeros left)
                    ∙ ap (λ z. t ++ z) (sym (zeros_next (256 - length t) left (omega arith)))));
        at_end = back;
        fits = omega arith;
        string = c_string_front t x (sym (ap c_string e) ∙ (h.string ∙ e));
      })
