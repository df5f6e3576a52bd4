-- ===== src/Tests.antt =====
-- Runs of the coordinates (server/handlers/move.c) and of the protocol's enumerations
-- (common/protocol_utils.c).
use multiplay_chess.Prelude.{◌≡◌, refl, some, pos, codes}
use multiplay_chess.Coordinate.{parse_chess_coordinate, format_chess_coordinate, parse-format}

parse-format_example :
    parse_chess_coordinate (format_chess_coordinate (pos 4) (pos 3)) ≡ some (pos 4, pos 3)
parse-format_example = parse-format (pos 4) (pos 3) refl

reads_e4 : parse_chess_coordinate (codes "e4") ≡ some (pos 4, pos 3)
unfolding parse_chess_coordinate
reads_e4 = refl
