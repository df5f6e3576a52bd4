-- ===== src/Pgn.antt =====
-- Saved games (client/pgn_save.c, client/game_save.c): the text that `write_pgn` puts into the file
-- and the result that `save_current_game` decides. Folder and file are the system's: what it answers
-- and the two texts of `strftime` are given.
use package.multiplay_chess.Prelude.{
  ℕ, zero, suc, ◌+◌, ◌/◌, ◌%◌, ◌==◌, Bool, true, false, if◌then◌else◌, Option, none, some, List, [],
  ◌∷◌, ◌++◌, get_elem?, pos, ◌==ℤ◌, pos_part, Text, codes,
}
use package.multiplay_chess.Piece.{Team, white, black, team_eq}
use package.multiplay_chess.Rule.{is_checkmate, is_stalemate}
use package.multiplay_chess.Match.{decimal}
use package.multiplay_chess.Client.{GameState}

-- What the system answers to a save: whether the folder is there, whether the file opens, its name
-- and the date.
pub record Disk : Type 0 where
  pub folder_ready : Bool
  pub file_opens : Bool
  pub file_name : Text
  pub date : Text

-- A file that was written, by name.
pub record File : Type 0 where
  pub name : Text
  pub content : Text

-- "[Tag \"value\"]\n"
abbrev pub tag : Text → Text → Text
tag name value = b'[' ∷ name ++ (b' ' ∷ b'"' ∷ value ++ (b'"' ∷ b']' ∷ b'\n' ∷ []))

abbrev pub names_of : Team → Text → Text → Text
names_of white local opponent = tag (codes "White") local ++ tag (codes "Black") opponent
names_of black local opponent = tag (codes "White") opponent ++ tag (codes "Black") local

-- The move at `i`: behind its number, or at the end of the line.
abbrev pub print_move : ℕ → Text → Text
print_move i move =
    if i % 2 == 0 then decimal (i / 2 + 1) ++ (b'.' ∷ b' ' ∷ move) else b' ' ∷ move ++ (b'\n' ∷ [])

-- The loop over the moves, with the turns left and i.
unfoldable pub print_moves : ℕ → ℕ → List Text → Text
print_moves zero i moves = []
print_moves (suc turns) i moves =
    let rest = print_moves turns (suc i) moves in
    elim (get_elem? moves i) [ none ↦ [] | some move ↦ print_move i move ++ rest ]

abbrev pub header : Text → GameState → Text
header date s =
    tag (codes "Event") (codes "Multiplay Chess")
    ++ (tag (codes "Site") (codes "Local")
        ++ (tag (codes "Date") date
            ++ (tag (codes "Round") (codes "1")
                ++ (names_of s.local_team s.local_player s.opponent_player
                    ++ (tag (codes "Result") s.pgn_result ++ (b'\n' ∷ []))))))

-- The content of the file.
unfoldable pub pgn_text : Text → GameState → Text
pgn_text date s =
    let count = pos_part s.pgn_move_count in
    header date s
    ++ (print_moves count 0 s.pgn_moves ++ (if count % 2 == 0 then [] else b'\n' ∷ []))

unfoldable pub write_pgn : Disk → GameState → Option File
write_pgn disk s =
    if disk.file_opens
    then some (record { name = disk.file_name; content = pgn_text disk.date s })
    else none

abbrev pub win_of : Team → Text
win_of white = codes "1-0"
win_of black = codes "0-1"

abbrev pub loss_of : Team → Text
loss_of white = codes "0-1"
loss_of black = codes "1-0"

unfoldable pub result_of : GameState → Text
result_of s = elim (is_checkmate s.game) [
  | true ↦
      (if team_eq s.game.side_to_move s.local_team
        then loss_of s.local_team
        else win_of s.local_team)
  | false ↦ elim (is_stalemate s.game) [
    | true ↦ codes "1/2-1/2"
    | false ↦ (if s.opponent_disconnected then win_of s.local_team else codes "*")
  ]
]

-- The file, if one is written, and the state with its result.
unfoldable pub save_current_game : Disk → GameState → Option File × GameState
save_current_game disk s =
    let decided = record s { pgn_result = result_of s } in
    if s.pgn_move_count ==ℤ pos 0
    then (none, s)
    else if disk.folder_ready
    then (write_pgn disk decided, decided)
    else (none, s)
