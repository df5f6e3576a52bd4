-- ===== src/Rule/Sound.antt =====
-- What every move that `is_move_legal` of common/rule.c lets pass keeps, `apply_move` applied.
use multiplay_chess.Prelude.{
  ◌≡◌, refl, sym, ◌∙◌, ap, ◌⊎◌, inl, inr, Bool, true, false, ◌&&◌, Bool-cases, ℤ, pos, negsuc, ◌+ℤ◌,
  ◌-ℤ◌, div_ℤ, abs, pos_part, neg_part, -ℤ_parts, minus_one, ◌==◌, arith,
}
use multiplay_chess.Piece.{pawn, kind_eq, Team, white, black, deref, other_team}
use multiplay_chess.Game.{Square, Board, Game, holds, in_board, same_square}
use multiplay_chess.Rule.{
  stands_for, is_king_of, forward, is_in_check, apply_move, apply_piece, set_en_passant, pawn_ok,
  is_move_legal,
}
use multiplay_chess.Rule.Moves.{Passes, legal-Passes, stands_for-team}
use multiplay_chess.Rule.Pawns.{EnPassantSafe, same→≡, same_refl, pawn_ok-cases, holds_ref}
use multiplay_chess.Rule.Landing.{king_dst, king_src, king_other, landed, stands_dst}
use multiplay_chess.Rule.Promotion.{pawn_kingless, piece_pawn, kind_eq→≡, apply_move_held}
use multiplay_chess.Rule.Kings.{SoleKing, king_target-check, other_other}

-- Each team has one king, the side that has just moved is not in check, and an en passant square
-- has a piece before it that may be taken.
pub record IsSound (g : Game) : Type 0 where
  pub kings : (t : Team) → SoleKing g.board t
  pub safe : is_in_check g (other_team g.side_to_move) ≡ false
  pub victim : EnPassantSafe g

module _ (sx sy dx dy : ℤ) where
  en_passant_set :
      (dst : Square) (g : Game)
      → let two = holds pawn dst && (abs (dy -ℤ sy) == 2) in
        (two ≡ false) × ((set_en_passant sx sy dx dy dst g).en_passant_x ≡ minus_one)
        ⊎ (two ≡ true)
          × ((set_en_passant sx sy dx dy dst g).en_passant_x ≡ dx)
          × ((set_en_passant sx sy dx dy dst g).en_passant_y ≡ div_ℤ (sy +ℤ dy) (pos 2))
  unfolding set_en_passant
  en_passant_set dst g = elim (Bool-cases (holds pawn dst && (abs (dy -ℤ sy) == 2))) [
    | inl two ↦ inr (two, rw two, rw two)
    | inr one ↦ inl (one, rw one)
  ]

  one_step : {A : Type 0} (t : Team) → dy -ℤ forward t ≡ sy → (abs (dy -ℤ sy) == 2) ≡ true → A
  one_step white e two =
      absurd (ground (arith, -ℤ_parts dy (pos 1), -ℤ_parts dy sy, ap pos_part e, ap neg_part e))
  one_step black e two =
      absurd (ground (arith, -ℤ_parts dy (negsuc 0), -ℤ_parts dy sy, ap pos_part e, ap neg_part e))

  pawn_double :
      (g : Game)
      → pawn_ok g sx sy dx dy ≡ true
      → (abs (dy -ℤ sy) == 2) ≡ true
      → dy -ℤ forward (g.board sy sx).team ≡ sy +ℤ forward (g.board sy sx).team
  pawn_double g ok two = elim (pawn_ok-cases g sx sy dx dy ok) [
    | inl (_, e) ↦ one_step (g.board sy sx).team e two
    | inr (inl (_, e, _)) ↦ e
    | inr (inr (_, e, _)) ↦ one_step (g.board sy sx).team e two
  ]

  -- The square between the ends of a double step, seen from its far end.
  middle :
      (t : Team)
      → in_board sx sy ≡ true
      → in_board dx dy ≡ true
      → dy -ℤ forward t ≡ sy +ℤ forward t
      → div_ℤ (sy +ℤ dy) (pos 2) -ℤ forward (other_team t) ≡ dy
  unfolding ◌+ℤ◌ ◌-ℤ◌ div_ℤ
  middle t i j e = ground (arith, ap pos_part e, ap neg_part e)

us_or_them : (us t : Team) → (t ≡ us) ⊎ (t ≡ other_team us)
us_or_them white white = inl refl
us_or_them white black = inr refl
us_or_them black white = inr refl
us_or_them black black = inl refl

minus_outside : (y : ℤ) → in_board minus_one y ≡ true → ⊥
minus_outside y h = ground arith

module _ (g : Game) (sx sy dx dy : ℤ) (s : IsSound g) (p : Passes g sx sy dx dy) where
  abbrev us : Team
  us = g.side_to_move

  abbrev after : Board
  after = (apply_move g sx sy dx dy).board

  no_capture : is_king_of (other_team us) (g.board dy dx) ≡ false
  no_capture = elim (Bool-cases (is_king_of (other_team us) (g.board dy dx))) [
    | inl hit ↦
        let check = king_target-check g sx sy dx dy p (s.kings (other_team us)) hit in
        let safe = s.safe in absurd (cc)
    | inr clear ↦ clear
  ]

  -- A king other than the one that moves stays where it is.
  still_king :
      (t : Team)
      → is_king_of t (g.board sy sx) ≡ false
      → is_king_of t (g.board dy dx) ≡ false
      → (y x : ℤ) → is_king_of t (after y x) ≡ is_king_of t (g.board y x)
  still_king t off_src off_dst y x = elim (Bool-cases (same_square sy sx y x)) [
    | inl on ↦
        let (ey, ex) = same→≡ sy sx y x on in
        rw (ey, ex) (king_src g sx sy dx dy p s.victim t ∙ sym off_src)
    | inr off ↦ elim (Bool-cases (same_square dy dx y x)) [
      | inl on ↦
          let (ey, ex) = same→≡ dy dx y x on in
          rw (ey, ex) (king_dst g sx sy dx dy p s.victim t ∙ (off_src ∙ sym off_dst))
      | inr off' ↦ king_other g sx sy dx dy p s.victim t y x off off'
    ]
  ]

  still_SoleKing :
      (t : Team)
      → is_king_of t (g.board sy sx) ≡ false
      → is_king_of t (g.board dy dx) ≡ false
      → SoleKing after t
  still_SoleKing t off_src off_dst =
      let k = s.kings t in
      record {
        x = k.x;
        y = k.y;
        inside = k.inside;
        here = still_king t off_src off_dst k.y k.x ∙ k.here;
        sole = λ x' y' i h. k.sole x' y' i (sym (still_king t off_src off_dst y' x') ∙ h);
      }

  moved_SoleKing : (t : Team) → is_king_of t (g.board sy sx) ≡ true → SoleKing after t
  moved_SoleKing t on_src = record {
    x = dx;
    y = dy;
    inside = p.to_inside;
    here = king_dst g sx sy dx dy p s.victim t ∙ on_src;
    sole = λ x' y' i h. elim (Bool-cases (same_square dy dx y' x')) [
      | inl on ↦ let (ey, ex) = same→≡ dy dx y' x' on in (ex, ey)
      | inr off ↦ elim (Bool-cases (same_square sy sx y' x')) [
        | inl on ↦
            let (ey, ex) = same→≡ sy sx y' x' on in
            let left = king_src g sx sy dx dy p s.victim t in
            let h' : is_king_of t (after sy sx) ≡ true = rw (ey, ex) at h in absurd (cc)
        | inr off' ↦
            let was = sym (king_other g sx sy dx dy p s.victim t y' x' off' off) ∙ h in
            let k = s.kings t in
            let (ex, ey) = k.sole x' y' i was in
            let (fx, fy) = k.sole sx sy p.from_inside on_src in
            let diff : same_square sy sx y' x' ≡ true =
              rw (ex ∙ sym fx, ey ∙ sym fy) (same_refl sy sx) in
            absurd (cc)
      ]
    ];
  }

  not_theirs : (q : Square) → stands_for us q ≡ true → is_king_of (other_team us) q ≡ false
  not_theirs q own = ground arith

  not_ours : (q : Square) → stands_for us q ≡ false → is_king_of us q ≡ false
  not_ours q free = ground arith

  kings_after : (t : Team) → (t ≡ us) ⊎ (t ≡ other_team us) → SoleKing after t
  kings_after t (inl e) = elim (Bool-cases (is_king_of us (g.board sy sx))) [
    | inl on ↦ rw e (moved_SoleKing us on)
    | inr off ↦ rw e (still_SoleKing us off (not_ours (g.board dy dx) p.not_own_target))
  ]
  kings_after t (inr e) =
      rw e (still_SoleKing (other_team us) (not_theirs (g.board sy sx) p.own_piece) no_capture)

  abbrev two_up : Bool
  two_up = holds pawn (g.board sy sx) && (abs (dy -ℤ sy) == 2)

  side_after : (apply_move g sx sy dx dy).side_to_move ≡ other_team us
  unfolding apply_piece
  side_after = ap (λ (h : Game). h.side_to_move) (apply_move_held g sx sy dx dy p.moved p.held)

  square_after :
      (two_up ≡ false) × ((apply_move g sx sy dx dy).en_passant_x ≡ minus_one)
      ⊎ (two_up ≡ true)
        × ((apply_move g sx sy dx dy).en_passant_x ≡ dx)
        × ((apply_move g sx sy dx dy).en_passant_y ≡ div_ℤ (sy +ℤ dy) (pos 2))
  unfolding apply_piece
  square_after =
      rw (apply_move_held g sx sy dx dy p.moved p.held, landed g sx sy dx dy p s.victim)
        (en_passant_set sx sy dx dy (g.board sy sx) _)

  -- A pawn that went two squares stands behind the en passant square.
  behind : two_up ≡ true → div_ℤ (sy +ℤ dy) (pos 2) -ℤ forward (other_team us) ≡ dy
  behind two =
      let up : kind_eq (deref p.moved).piece_type pawn ≡ true =
        sym (holds_ref pawn p.moved (g.board sy sx) p.held) ∙ ground arith in
      let pawn_move = piece_pawn g sx sy dx dy (deref p.moved) (kind_eq→≡ _ pawn up) p.fits in
      let team = stands_for-team us (g.board sy sx) p.own_piece in
      let double = pawn_double sx sy dx dy g pawn_move (ground arith) in
      middle sx sy dx dy us p.from_inside p.to_inside (rw team at double)

  victim_after : EnPassantSafe (apply_move g sx sy dx dy)
  victim_after inside = elim square_after [
    | inl (_, none_x) ↦
        absurd (minus_outside (apply_move g sx sy dx dy).en_passant_y (rw none_x at inside))
    | inr (two, ex, ey) ↦
        let own : stands_for us (after dy dx) ≡ true =
          stands_dst g sx sy dx dy p s.victim us ∙ p.own_piece in
        let dst = king_dst g sx sy dx dy p s.victim us in
        let pawn_up = pawn_kingless (g.board sy sx) (ground arith) in
        rw (side_after, ex, ey, behind two, other_other us) (own, ground arith)
  ]

-- From a position where each team has one king, the side that has just moved is not in check, and a
-- piece that may be taken stands before the en passant square, every move that the code calls legal
-- leads to such a position: in particular no king is ever captured.
pub legal_move-IsSound :
    (g : Game) (sx sy dx dy : ℤ)
    → IsSound g
    → is_move_legal g sx sy dx dy ≡ true
    → IsSound (apply_move g sx sy dx dy)
legal_move-IsSound g sx sy dx dy s legal =
    let (p, safe) = legal-Passes g sx sy dx dy legal in
    record {
      kings = λ t. kings_after g sx sy dx dy s p t (us_or_them g.side_to_move t);
      safe =
          ap (is_in_check (apply_move g sx sy dx dy))
            (ap other_team (side_after g sx sy dx dy s p) ∙ other_other g.side_to_move)
          ∙ safe;
      victim = victim_after g sx sy dx dy s p;
    }
