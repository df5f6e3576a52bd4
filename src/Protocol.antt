-- ===== src/Protocol.antt =====
-- The messages between client and server (common/proto/message.proto, through the structures of
-- protobuf-c) and the conversions of common/protocol_utils.c. A string field is never null: it is
-- empty where the sender left it out. Timestamps serve the display alone and are left out, except
-- the start of a game.
use multiplay_chess.Prelude.{Bool, Option, ℤ, Text, ◌≡◌, refl}
use multiplay_chess.Piece.{PieceType, pawn, knight, bishop, rook, queen, king, Team, white, black}

pub data ProtoTeam : Type 0 where
  team_unspecified team_white team_black : ProtoTeam

pub data ProtoPieceType : Type 0 where
  pt_none pt_pawn pt_knight pt_bishop pt_rook pt_queen pt_king : ProtoPieceType

pub data GameEndType : Type 0 where
  end_unknown end_resign end_disconnect end_checkmate end_stalemate end_draw : GameEndType
  end_timeout : GameEndType

unfoldable pub team_to_proto : Team → ProtoTeam
team_to_proto white = team_white
team_to_proto black = team_black

unfoldable pub proto_to_team : ProtoTeam → Team
proto_to_team team_white = white
proto_to_team team_black = black
proto_to_team team_unspecified = white

unfoldable pub piece_type_to_proto : PieceType → ProtoPieceType
piece_type_to_proto pawn = pt_pawn
piece_type_to_proto knight = pt_knight
piece_type_to_proto bishop = pt_bishop
piece_type_to_proto rook = pt_rook
piece_type_to_proto queen = pt_queen
piece_type_to_proto king = pt_king

unfoldable pub proto_to_piece_type : ProtoPieceType → PieceType
proto_to_piece_type pt_pawn = pawn
proto_to_piece_type pt_knight = knight
proto_to_piece_type pt_bishop = bishop
proto_to_piece_type pt_rook = rook
proto_to_piece_type pt_queen = queen
proto_to_piece_type pt_king = king
proto_to_piece_type pt_none = pawn

-- Teams and kinds of pieces come back from the protocol as they were sent.
pub proto_roundtrip :
    (t : Team) (k : PieceType)
    → (proto_to_team (team_to_proto t) ≡ t) × (proto_to_piece_type (piece_type_to_proto k) ≡ k)
unfolding proto_to_team team_to_proto proto_to_piece_type piece_type_to_proto
proto_roundtrip t k = (teams t, kinds k)
  where
    teams : (t : Team) → proto_to_team (team_to_proto t) ≡ t
    teams white = refl
    teams black = refl

    kinds : (k : PieceType) → proto_to_piece_type (piece_type_to_proto k) ≡ k
    kinds pawn = refl
    kinds knight = refl
    kinds bishop = refl
    kinds rook = refl
    kinds queen = refl
    kinds king = refl

pub record MoveRequest : Type 0 where
  pub from : Text
  pub to : Text

-- `none` is a null pointer in the union, for the requests that the handlers test for it.
pub data ClientMessage : Type 0 where
  ping echo chat : Text → ClientMessage
  match_game cancel_match resign : Option Text → ClientMessage
  move : Option MoveRequest → ClientMessage
  unset : ClientMessage

pub record MatchGameResponse : Type 0 where
  pub game_id : Text
  pub success : Bool
  pub message : Text
  pub assigned_team : ProtoTeam
  pub opponent_name : Text
  pub time_limit_per_player : ℤ
  pub game_start_time : Option ℤ
  pub white_time_remaining : ℤ
  pub black_time_remaining : ℤ

pub record CancelMatchResponse : Type 0 where
  pub player_id : Text
  pub success : Bool
  pub message : Text

pub record MoveResponse : Type 0 where
  pub game_id : Text
  pub player_id : Text
  pub success : Bool
  pub message : Text
  pub updated_fen : Text

pub record MoveBroadcast : Type 0 where
  pub game_id : Text
  pub player_id : Text
  pub from : Text
  pub to : Text
  pub promotion : ProtoPieceType
  pub game_ends : Bool
  pub winner_team : ProtoTeam
  pub end_type : GameEndType
  pub is_check : Bool
  pub checked_team : ProtoTeam
  pub white_time_remaining : ℤ
  pub black_time_remaining : ℤ

pub record GameEndBroadcast : Type 0 where
  pub game_id : Text
  pub player_id : Text
  pub winner_team : ProtoTeam
  pub end_type : GameEndType

pub record ResignResponse : Type 0 where
  pub game_id : Text
  pub player_id : Text
  pub success : Bool
  pub message : Text

pub record ResignBroadcast : Type 0 where
  pub game_id : Text
  pub player_id : Text
  pub winner_team : ProtoTeam

pub record CheckBroadcast : Type 0 where
  pub game_id : Text
  pub player_id : Text
  pub by_team : ProtoTeam

pub record ChatBroadcast : Type 0 where
  pub player_id : Text
  pub message : Text

pub record ErrorResponse : Type 0 where
  pub code : ℤ
  pub message : Text

pub data ServerMessage : Type 0 where
  ping_res echo_res : Text → ServerMessage
  match_game_res : MatchGameResponse → ServerMessage
  cancel_match_res : CancelMatchResponse → ServerMessage
  move_res : MoveResponse → ServerMessage
  move_broadcast : MoveBroadcast → ServerMessage
  game_end : GameEndBroadcast → ServerMessage
  chat_broadcast : ChatBroadcast → ServerMessage
  resign_res : ResignResponse → ServerMessage
  resign_broadcast : ResignBroadcast → ServerMessage
  check_broadcast : CheckBroadcast → ServerMessage
  error : ErrorResponse → ServerMessage
  msg_not_set : ServerMessage
