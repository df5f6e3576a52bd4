-- ===== src/Screens/Fits.antt =====
-- The connection, the texts and the counts of the client under a round of the main loop (client/main.c).
use mathlib.Core.Path.{subst}
use multiplay_chess.Prelude.{
  if-Holds, ◌≡◌, refl, ◌&&◌, ◌||◌, Bool, true, false, if◌then◌else◌, Option, none, some, ℤ, pos,
  ◌-ℤ◌, leb_ℤ, arith,
}
use multiplay_chess.Client.{GameState, update_game_timer, charge_player}
use multiplay_chess.ClientState.{Screen, screen_main, ClientState}
use multiplay_chess.Handlers.Bounds.{IsBounded, same-IsBounded}
use multiplay_chess.Handlers.Fits.{still_texts}
use multiplay_chess.Connection.{on_game_screen}
use multiplay_chess.Connection.Link.{still}
use multiplay_chess.Input.{UserInput, mouse, key, with_client}
use multiplay_chess.Screens.{
  App, Round, quit, acknowledges, acknowledge, close_dialog, dialog_key, plain_key, take_input,
  next_dialog, is_matching, refresh_screen, needs_update, noticed, show_next, finish_round,
  loop_round,
}
use multiplay_chess.Screens.DeskFits.{Kept, quiet-Kept, mouse-Fine}
use multiplay_chess.Screens.KeyFits.{Well, game-Kept, screen_key-Well}

module _ (c0 : ClientState) where
  acknowledge-Kept : (x : ClientState) → Kept c0 x → Kept c0 (acknowledge x)
  unfolding acknowledge
  acknowledge-Kept x k =
      let s = x.game_state in
      let closed : ClientState = record x { dialog_active = false; current_screen = screen_main } in
      let kept = quiet-Kept c0 x closed refl (still_texts x) (still x) k in
      let found : ClientState = record closed { connection_lost = false } in
      let gone : GameState = record s { opponent_disconnected = false } in
      let b = k.1.bounded in
      if-Holds (Kept c0) {x = found}
        {y = if s.opponent_disconnected then record closed { game_state = gone } else closed}
        x.connection_lost (quiet-Kept c0 x found refl (still_texts x) (still x) k)
        (if-Holds (Kept c0) {x = record closed { game_state = gone }} {y = closed}
          s.opponent_disconnected
          (game-Kept c0 closed gone kept (
            same-IsBounded b gone (record { size = b.chat.size; within = b.chat.within }) refl refl
              refl refl refl refl refl))
          kept)

  take_input-Well : (r : Round) (a : App) → Well c0 a → Well c0 (take_input r a)
  unfolding take_input
  take_input-Well r a k = by_input r.input
    where
      by_input :
          (i : Option UserInput)
          → Well c0 (elim i [
            | none ↦ a
            | some i ↦ if a.desk.client.dialog_active then dialog_key i a else plain_key r i a
          ])
      by_input none = k
      by_input (some (mouse x y clicked)) =
          if-Holds (Well c0) {x = a} {y = plain_key r (mouse x y clicked) a}
            a.desk.client.dialog_active k (mouse-Fine c0 r.moment x y clicked a.desk k)
      by_input (some (key ch)) =
          if-Holds (Well c0) {x = dialog_key (key ch) a} {y = plain_key r (key ch) a}
            a.desk.client.dialog_active
            (if-Holds (Well c0) {x = close_dialog a} {y = a} (acknowledges ch)
              (acknowledge-Kept a.desk.client k) k)
            (screen_key-Well c0 r ch a.desk.client.current_screen a k)

  timed-IsBounded : (now : ℤ) (s : GameState) → IsBounded s → IsBounded (update_game_timer now s)
  unfolding update_game_timer charge_player
  timed-IsBounded now s b =
      same-IsBounded b (update_game_timer now s)
        (record { size = ground (arith, b.chat.size); within = ground (arith, b.chat.within) })
        (ground arith) (ground arith) (ground arith) (ground arith) (ground arith) (ground arith)
        (ground arith)

  refresh_screen-Well :
      (now : ℤ) (screen : Screen) (needed : Bool) (a : App)
      → Well c0 a
      → Well c0 (refresh_screen now screen needed a)
  unfolding refresh_screen
  refresh_screen-Well now screen needed a k =
      let c = a.desk.client in
      let periodic =
        (is_matching screen || on_game_screen screen)
        && leb_ℤ (pos 1) (now -ℤ a.last_update_time) in
      let timed : ClientState =
        if on_game_screen screen && periodic
        then record c { game_state = update_game_timer now c.game_state }
        else c in
      let later : App = record a { desk = with_client timed a.desk; last_update_time = now } in
      let shown : ClientState = record c { screen_update_requested = false } in
      let drawn : App = record a { desk = with_client shown a.desk } in
      if-Holds (Well c0) {x = later} {y = if needed then a else drawn} periodic
        (if-Holds (Kept c0) {x = record c { game_state = update_game_timer now c.game_state }}
          {y = c} (on_game_screen screen && periodic)
          (game-Kept c0 c (update_game_timer now c.game_state) k
            (timed-IsBounded now c.game_state k.1.bounded))
          k)
        (if-Holds (Well c0) {x = a} {y = drawn} needed k
          (quiet-Kept c0 c shown refl (still_texts c) (still c) k))

  abbrev Shown : Option ClientState → Type 0
  Shown none = Unit
  Shown (some d) = Kept c0 d

  next_dialog-Shown : (x : ClientState) → Kept c0 x → Shown (next_dialog x)
  unfolding next_dialog
  next_dialog-Shown x k =
      let opened : ClientState = record x { dialog_active = true } in
      let result : ClientState = record opened { resign_result_dialog_pending = false } in
      let ended : ClientState = record opened { game_end_dialog_pending = false } in
      let kept = quiet-Kept c0 x opened refl (still_texts x) (still x) k in
      if-Holds Shown x.dialog_active tt (
        if-Holds Shown x.connection_lost kept (
          if-Holds Shown x.resign_result_dialog_pending
            (quiet-Kept c0 x result refl (still_texts x) (still x) k)
            (if-Holds Shown x.game_state.opponent_disconnected kept (
              if-Holds Shown x.game_end_dialog_pending
                (quiet-Kept c0 x ended refl (still_texts x) (still x) k) tt))))

  next_dialog-Kept : (x d : ClientState) → next_dialog x ≡ some d → Kept c0 x → Kept c0 d
  next_dialog-Kept x d e k = subst Shown e (next_dialog-Shown x k)

  show_next-Well :
      (r : Round) (screen : Screen) (needed : Bool) (a : App) (o : Option ClientState)
      → next_dialog a.desk.client ≡ o
      → Well c0 a
      → Well c0 (show_next r screen needed o a)
  unfolding show_next
  show_next-Well r screen needed a none e k = refresh_screen-Well r.moment.now screen needed a k
  show_next-Well r screen needed a (some d) e k = next_dialog-Kept a.desk.client d e k

  -- A round keeps the connection, and the texts and counts within their arrays.
  pub loop_round-Well :
      (r : Round) (a : App) → Kept c0 a.desk.client → Kept c0 (loop_round r a).desk.client
  unfolding loop_round
  loop_round-Well r a k =
      let c = a.desk.client in
      let seen : ClientState = record c { screen_update_requested = false } in
      let start = quiet-Kept c0 c seen refl (still_texts c) (still c) k in
      let done = take_input r (noticed a) in
      let pressed = take_input-Well r (noticed a) start in
      let finished = finish_round r c.current_screen (needs_update r a) done in
      if-Holds (Well c0) {x = quit a} {y = if done.running then finished else done}
        (r.stop_before || r.stop_after) k
        (if-Holds (Well c0) {x = finished} {y = done} done.running
          (show_next-Well r c.current_screen (needs_update r a) done (next_dialog done.desk.client)
            refl pressed)
          pressed)
