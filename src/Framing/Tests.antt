-- ===== src/Framing/Tests.antt =====
-- Runs of the framing (common/network.c): "hi" in pieces.
use multiplay_chess.Prelude.{◌≡◌, refl, Option, some, List, [], ◌∷◌, ◌++◌, pos, arith, Text, codes}
use multiplay_chess.Framing.{
  Send, wrote, signal, returned, send_all, send_loop, send_packed, Event, bytes, stopped, got,
  recv_all, null, message, receive_client_message,
}
use multiplay_chess.Framing.Sending.{send_all_lem}
use multiplay_chess.Framing.Receiving.{Open, flat, recv_all_lem}
use multiplay_chess.Framing.Roundtrip.{stream_of, message_carried, empty_message}

abbrev hi : Text
hi = codes "hi"

-- A signal, two bytes, and then the rest.
abbrev calls : List Send
calls = signal ∷ wrote 1 ∷ wrote 9 ∷ wrote 0 ∷ wrote 0 ∷ wrote 0 ∷ wrote 0 ∷ []

send_all_lem_example : send_all calls hi ≡ returned (pos 2) hi
send_all_lem_example = send_all_lem calls hi tt (omega arith)

-- The frame in three pieces with a signal, and the first byte of the next one.
abbrev pieces : List Event
pieces = bytes 0 (0 ∷ []) ∷ stopped ∷ bytes 0 (2 ∷ b'h' ∷ []) ∷ bytes b'i' (7 ∷ []) ∷ []

recv_all_lem_example :
    (rest : List Event) × (recv_all 3 pieces ≡ got (0 ∷ 0 ∷ 0 ∷ []) rest)
    × Open rest
    × (flat rest ≡ 2 ∷ b'h' ∷ b'i' ∷ 7 ∷ [])
recv_all_lem_example = recv_all_lem 3 pieces tt (omega arith)

abbrev as_is : Text → Option Text
as_is body = some body

abbrev packed : Text → Text
packed body = body

on_stream : flat pieces ≡ stream_of (send_packed calls hi) ++ (7 ∷ [])
unfolding send_packed send_all send_loop
on_stream = refl

message_carried_example :
    (rest : List Event) × (receive_client_message as_is pieces ≡ message hi rest)
    × Open rest
    × (flat rest ≡ 7 ∷ [])
message_carried_example =
    message_carried packed as_is hi calls pieces (7 ∷ []) refl (omega arith) (omega arith) tt
      (omega arith) tt on_stream

empty_message_example : receive_client_message as_is (bytes 0 (0 ∷ 0 ∷ 0 ∷ []) ∷ []) ≡ null
empty_message_example = empty_message as_is (bytes 0 (0 ∷ 0 ∷ 0 ∷ []) ∷ []) [] tt refl
