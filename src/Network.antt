-- ===== src/Network.antt =====
-- Sending to clients (common/network.c, `send_server_message`). What the sockets do is an argument:
-- from the messages sent before, the descriptor and the message it tells what the call returns, the
-- number of bytes sent or -1. The log of messages holds the newest first.
use multiplay_chess.Prelude.{Bool, List, ◌∷◌, ℤ, pos, ltb_ℤ}
use multiplay_chess.Protocol.{ServerMessage}

pub record Sent : Type 0 where
  pub to : ℤ
  pub message : ServerMessage

abbrev pub Outbox : Type 0
Outbox = List Sent

abbrev pub Net : Type 0
Net = Outbox → ℤ → ServerMessage → ℤ

unfoldable pub send_server_message : Net → ℤ → ServerMessage → Outbox → ℤ × Outbox
send_server_message net fd msg out = (net out fd msg, record { to = fd; message = msg } ∷ out)

-- A send whose result the caller only logs.
abbrev pub notify : ℤ → ServerMessage → Outbox → Outbox
notify fd msg out = record { to = fd; message = msg } ∷ out

abbrev pub failed : ℤ → Bool
failed r = ltb_ℤ r (pos 0)
