-- ===== src/Screens/Dialogs.antt =====
-- The dialogs of the client and the keys that they take (client/main.c).
use mathlib.Core.Path.{subst}
use multiplay_chess.Prelude.{
  ℕ, suc, ◌+◌, ◌≡◌, ◌⊎◌, refl, sym, ap, ◌∙◌, Bool, not, ◌&&◌, ◌||◌, true, false, inl, inr,
  if◌then◌else◌, if-True, if-False, Option, none, some, List, [], ◌∷◌, length, ℤ, arith,
}
use multiplay_chess.Client.{GameState, update_game_timer, charge_player}
use multiplay_chess.ClientState.{Screen, screen_main, ClientState}
use multiplay_chess.Input.{key, byte}
use multiplay_chess.Screens.{
  App, Round, acknowledge, close_dialog, take_input, next_dialog, refresh_screen, needs_update,
  noticed, finish_round, main_key, screen_key, loop_round, show_next,
}

-- The dialogs from the open one on, which Enter closes one by one. Closing any dialog takes back a
-- lost connection or, with none, a lost opponent, be its own dialog shown or not; so that of a lost
-- opponent still comes only behind that of the connection, and with no result of a resignation to be
-- shown in between.
abbrev one : Bool → ℕ
one b = if b then 1 else 0

abbrev pub dialogs_left : ClientState → ℕ
dialogs_left c =
    one c.dialog_active
    + one c.resign_result_dialog_pending
    + one c.game_end_dialog_pending
    + one (
        c.connection_lost
        && c.game_state.opponent_disconnected
        && not c.resign_result_dialog_pending)

-- Some dialog is asked for.
abbrev pub waits : ClientState → Bool
waits c =
    c.connection_lost || c.resign_result_dialog_pending || c.game_state.opponent_disconnected
    || c.game_end_dialog_pending

-- All dialogs are closed, none waits, and the main screen is shown.
abbrev pub AtRest : ClientState → Type 0
AtRest c = (waits c ≡ false) × (c.dialog_active ≡ false) × (c.current_screen ≡ screen_main)

-- Enter closes the dialog that is open, and what opens next leaves one fewer.
closed_none :
    (c : ClientState)
    → next_dialog (acknowledge c) ≡ none
    → c.dialog_active ≡ true
    → (dialogs_left c ≡ 1) × AtRest (acknowledge c)
unfolding acknowledge next_dialog
closed_none c h active = (ground arith, (ground arith, ground arith, ground arith))

closed_some :
    (c d : ClientState)
    → next_dialog (acknowledge c) ≡ some d
    → c.dialog_active ≡ true
    → (suc (dialogs_left d) ≡ dialogs_left c) × (d.dialog_active ≡ true)
unfolding acknowledge next_dialog
closed_some c d h active = (ground arith, ground arith)

update_game_timer_keeps :
    (now : ℤ) (s : GameState)
    → (update_game_timer now s).opponent_disconnected ≡ s.opponent_disconnected
unfolding update_game_timer charge_player
update_game_timer_keeps now s = ground arith

refresh_screen-AtRest :
    (now : ℤ) (screen : Screen) (needed : Bool) (a : App)
    → AtRest a.desk.client
    → AtRest (refresh_screen now screen needed a).desk.client
unfolding refresh_screen
refresh_screen-AtRest now screen needed a (quiet, off, main) =
    let same = update_game_timer_keeps now a.desk.client.game_state in
    (ground arith, ground arith, ground arith)

-- A round in which Enter is pressed and nothing asks to stop.
abbrev pub enter_round : Round → Round
enter_round r = record r {
  input = some (key (byte b'\n'));
  stop_before = false;
  stop_after = false;
}

unfoldable pub enter_rounds : List Round → App → App
enter_rounds [] a = a
enter_rounds (r ∷ rounds) a = enter_rounds rounds (loop_round (enter_round r) a)

-- Behind a round: at rest where one dialog was left, or with the next open and one fewer left.
abbrev Progress : App → App → Type 0
Progress a b =
    (b.running ≡ true)
    × ((dialogs_left a.desk.client ≡ 1) × AtRest b.desk.client
        ⊎ (b.desk.client.dialog_active ≡ true)
          × (suc (dialogs_left b.desk.client) ≡ dialogs_left a.desk.client))

refresh_screen-running :
    (now : ℤ) (screen : Screen) (needed : Bool) (a : App)
    → a.running ≡ true
    → (refresh_screen now screen needed a).running ≡ true
unfolding refresh_screen
refresh_screen-running now screen needed a on = ground arith

finish-Progress :
    (r : Round) (screen : Screen) (needed : Bool) (a b : App) (next : Option ClientState)
    → next_dialog (acknowledge (noticed a).desk.client) ≡ next
    → b.desk.client ≡ acknowledge (noticed a).desk.client
    → b.running ≡ true
    → a.desk.client.dialog_active ≡ true
    → Progress a (show_next r screen needed next b)
unfolding show_next
finish-Progress r screen needed a b none e same on active =
    let (last, rest) = closed_none (noticed a).desk.client e active in
    (
      refresh_screen-running r.moment.now screen needed b on,
      inl (last, refresh_screen-AtRest r.moment.now screen needed b (rw same rest)),
    )
finish-Progress r screen needed a b (some d) e same on active =
    let (fewer, up) = closed_some (noticed a).desk.client d e active in (on, inr (up, fewer))

open_round :
    (r : Round) (a : App)
    → a.running ≡ true
    → a.desk.client.dialog_active ≡ true
    → Progress a (loop_round (enter_round r) a)
unfolding loop_round take_input
open_round r a on active =
    let after = close_dialog (noticed a) in
    let r' = enter_round r in
    let screen = a.desk.client.current_screen in
    let needed = needs_update r' a in
    let step = finish-Progress r' screen needed a after _ refl refl on active in
    if-True (λ (b : App). Progress a (if b.running then finish_round r' screen needed b else b)) _ _
      a.desk.client.dialog_active active (if-True (Progress a) _ _ a.running on step)

rest_none : (c : ClientState) → AtRest c → next_dialog c ≡ none
unfolding next_dialog
rest_none c (quiet, off, main) = ground arith

main_enter : (r : Round) (a : App) → screen_key r (byte b'\n') screen_main a ≡ a
unfolding screen_key main_key
main_enter r a = refl

abbrev Rests : App → Type 0
Rests b = (b.running ≡ true) × AtRest b.desk.client

finish-Rests :
    (r : Round) (screen : Screen) (needed : Bool) (b : App)
    → Rests b
    → Rests (finish_round r screen needed b)
unfolding show_next
finish-Rests r screen needed b (on, rest) =
    subst (λ o. Rests (show_next r screen needed o b)) (sym (rest_none b.desk.client rest))
      (
        refresh_screen-running r.moment.now screen needed b on,
        refresh_screen-AtRest r.moment.now screen needed b rest,
      )

-- At rest, Enter does nothing.
rest_round :
    (r : Round) (a : App)
    → a.running ≡ true
    → AtRest a.desk.client
    → Rests (loop_round (enter_round r) a)
unfolding loop_round take_input
rest_round r a on (quiet, off, main) =
    let r' = enter_round r in
    let screen = a.desk.client.current_screen in
    let needed = needs_update r' a in
    let after = λ (b : App). if b.running then finish_round r' screen needed b else b in
    let still : screen_key r' (byte b'\n') screen (noticed a) ≡ noticed a =
      ap (λ s. screen_key r' (byte b'\n') s (noticed a)) main ∙ main_enter r' (noticed a) in
    if-False (λ (b : App). Rests (after b)) _ _ a.desk.client.dialog_active off
      (subst (λ b. Rests (after b)) (sym still)
        (if-True Rests _ _ a.running on
          (finish-Rests r' screen needed (noticed a) (on, (quiet, off, main)))))

rounds-Rests : (rounds : List Round) (a : App) → Rests a → Rests (enter_rounds rounds a)
unfolding enter_rounds
rounds-Rests [] a k = k
rounds-Rests (r ∷ rounds) a (on, rest) = rounds-Rests rounds _ (rest_round r a on rest)

open_rounds :
    (rounds : List Round) (a : App)
    → a.running ≡ true
    → a.desk.client.dialog_active ≡ true
    → suc (length rounds) ≡ dialogs_left a.desk.client
    → ((enter_rounds rounds a).running ≡ true)
      × ((enter_rounds rounds a).desk.client.dialog_active ≡ true)
      × (dialogs_left (enter_rounds rounds a).desk.client ≡ 1)
unfolding enter_rounds
open_rounds [] a on active count = (on, active, sym count)
open_rounds (r ∷ rounds) a on active count =
    let (on', next) = open_round r a on active in
    elim next [
      | inl (last, rest) ↦ absurd (omega arith)
      | inr (active', fewer) ↦
          open_rounds rounds (loop_round (enter_round r) a) on' active' (omega arith)
    ]

-- With a dialog of the loop open, and whatever others wait, Enter closes one in each round, as many as
-- `dialogs_left` counts: a round before the last a dialog is open still; behind the last none is open,
-- none waits and the main screen is shown, and it stays so however often Enter is pressed.
pub dialogs_closed :
    (rounds : List Round) (r : Round) (more : List Round) (a : App)
    → a.running ≡ true
    → a.desk.client.dialog_active ≡ true
    → suc (length rounds) ≡ dialogs_left a.desk.client
    → ((enter_rounds rounds a).desk.client.dialog_active ≡ true)
      × AtRest (enter_rounds more (loop_round (enter_round r) (enter_rounds rounds a))).desk.client
dialogs_closed rounds r more a on active count =
    let b = enter_rounds rounds a in
    let (on', active', one_left) = open_rounds rounds a on active count in
    let (on'', next) = open_round r b on' active' in
    (
      active',
      elim next [
        | inl (last, rest) ↦ (rounds-Rests more _ (on'', rest)).1
        | inr (open', fewer) ↦
            absurd (none_less (loop_round (enter_round r) b).desk.client open' (omega arith))
      ],
    )
  where
    none_less : (c : ClientState) → c.dialog_active ≡ true → ¬ (dialogs_left c ≡ 0)
    none_less c open' h = ground arith
