-- ===== src/Framing.antt =====
-- Messages on a stream socket (common/network.c): a length in four bytes, then the message as
-- protobuf-c packs it. What the kernel answers to each call is a list that the loops consume; a loop
-- that finds it empty is blocked. `malloc` is taken to succeed. Packing and unpacking are arguments.
pub mod Sending
pub mod Receiving
pub mod Roundtrip
mod Tests
use package.multiplay_chess.Prelude.{
  ℕ, zero, suc, ◌+◌, ◌-◌, ◌*◌, ◌/◌, ◌%◌, leb, ltb, ◌==◌, Bool, true, false, if◌then◌else◌, Option,
  none, some, List, [], ◌∷◌, ◌++◌, length, take, drop, ℤ, pos, minus_one, to_int32, Text,
}

-- A call of `send`: so many bytes and one more, as far as there are any; a signal; nothing sent; an error.
pub data Send : Type 0 where
  wrote : ℕ → Send
  signal nothing broken : Send

-- What the caller sees, and the bytes on the stream.
pub data Outcome : Type 0 where
  blocked : Text → Outcome
  returned : ℤ → Text → Outcome

-- The bytes left, the total so far and the stream.
unfoldable pub send_loop : List Send → Text → ℕ → Text → Outcome
send_loop calls [] total stream = returned (pos total) stream
send_loop [] (b ∷ bs) total stream = blocked stream
send_loop (wrote n ∷ calls) (b ∷ bs) total stream =
    let sent = take (suc n) (b ∷ bs) in
    send_loop calls (drop (suc n) (b ∷ bs)) (total + length sent) (stream ++ sent)
send_loop (signal ∷ calls) (b ∷ bs) total stream = send_loop calls (b ∷ bs) total stream
send_loop (nothing ∷ calls) (b ∷ bs) total stream = returned minus_one stream
send_loop (broken ∷ calls) (b ∷ bs) total stream = returned minus_one stream

unfoldable pub send_all : List Send → Text → Outcome
send_all calls buf = send_loop calls buf 0 []

-- `htonl`, and `ntohl` of four bytes.
abbrev pub htonl : ℕ → Text
htonl n = n / 16777216 % 256 ∷ n / 65536 % 256 ∷ n / 256 % 256 ∷ n % 256 ∷ []

abbrev pub ntohl : Text → ℕ
ntohl (a ∷ b ∷ c ∷ d ∷ []) = a * 16777216 + b * 65536 + c * 256 + d
ntohl _ = 0

abbrev pub frame : Text → Text
frame body = htonl (length body) ++ body

abbrev pub int_result : Outcome → Outcome
int_result (blocked stream) = blocked stream
int_result (returned r stream) = returned (to_int32 r) stream

-- `send_client_message` and `send_server_message`, on the packed message.
unfoldable pub send_packed : List Send → Text → Outcome
send_packed calls body = int_result (send_all calls (frame body))

-- What waits at the reading end: some bytes, at least one; a signal; the end; an error.
pub data Event : Type 0 where
  bytes : ℕ → Text → Event
  stopped closed failure : Event

pub data Received : Type 0 where
  waits : Received
  got : Text → List Event → Received
  at_end at_error : Received

abbrev pub push : Text → List Event → List Event
push [] es = es
push (b ∷ bs) es = bytes b bs ∷ es

-- The bytes still wanted, and those read. A call takes all it wants of the bytes that are there.
unfoldable pub recv_loop : ℕ → List Event → Text → Received
recv_loop zero es buf = got buf es
recv_loop (suc k) [] buf = waits
recv_loop (suc k) (bytes b bs ∷ es) buf =
    let more = recv_loop (suc k - length (b ∷ bs)) es (buf ++ (b ∷ bs)) in
    if leb (suc k) (length (b ∷ bs))
    then got (buf ++ take (suc k) (b ∷ bs)) (push (drop (suc k) (b ∷ bs)) es)
    else more
recv_loop (suc k) (stopped ∷ es) buf = recv_loop (suc k) es buf
recv_loop (suc k) (closed ∷ es) buf = at_end
recv_loop (suc k) (failure ∷ es) buf = at_error

unfoldable pub recv_all : ℕ → List Event → Received
recv_all len es = recv_loop len es []

-- `null` is a closed connection, an error or a message that does not parse: the callers do not tell
-- them apart.
pub data Reading (M : Type 0) : Type 0 where
  pending : Reading M
  null : Reading M
  message : M → List Event → Reading M

module _ {M : Type 0} (unpack : Text → Option M) where
  unfoldable pub parse_body : Text → List Event → Reading M
  parse_body buf es = elim (unpack buf) [ none ↦ null | some m ↦ message m es ]

  -- A length of 0 makes `recv_all` return 0, which counts as a closed connection.
  unfoldable pub receive_body : ℕ → List Event → Reading M
  receive_body len es = elim (recv_all len es) [
    | waits ↦ pending
    | at_end ↦ null
    | at_error ↦ null
    | got buf rest ↦ if len == 0 then null else parse_body buf rest
  ]

  unfoldable pub receive_client_message : List Event → Reading M
  receive_client_message es = elim (recv_all 4 es) [
    | waits ↦ pending
    | at_end ↦ null
    | at_error ↦ null
    | got lenbuf rest ↦ receive_body (ntohl lenbuf) rest
  ]

  -- With a limit of a megabyte.
  unfoldable pub receive_server_message : List Event → Reading M
  receive_server_message es = elim (recv_all 4 es) [
    | waits ↦ pending
    | at_end ↦ null
    | at_error ↦ null
    | got lenbuf rest ↦
        if ltb 1048576 (ntohl lenbuf) then null else receive_body (ntohl lenbuf) rest
  ]
