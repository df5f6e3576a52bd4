-- ===== src/Framing/Roundtrip.antt =====
-- A message sent by `send_server_message` or `send_client_message` and read at the other end
-- (common/network.c).
use multiplay_chess.Prelude.{
  ℕ, ◌-◌, ◌≤◌, ◌<◌, ◌≡◌, ◌∙◌, ap, false, ltb, ◌==◌, Option, some, List, [], ◌++◌, length, take,
  drop, take_all, length-++, take_inside, drop_behind, arith, Text,
}
use multiplay_chess.Framing.{
  Send, Outcome, blocked, returned, htonl, ntohl, frame, int_result, send_packed, Event, got,
  recv_all, recv_loop, null, message, parse_body, receive_body, receive_client_message,
  receive_server_message,
}
use multiplay_chess.Framing.Sending.{Healthy, writes, send_all_lem}
use multiplay_chess.Framing.Receiving.{Open, flat, recv_all_lem}

-- Four bytes carry every length below 2^32.
ntohl-htonl : (n : ℕ) → n < 4294967296 → ntohl (htonl n) ≡ n
ntohl-htonl n h = omega arith

-- What is on the stream after a call.
abbrev pub stream_of : Outcome → Text
stream_of (blocked s) = s
stream_of (returned r s) = s

module _ {M : Type 0} (unpack : Text → Option M) (es : List Event) (body after : Text) (o : Open es)
    (there : flat es ≡ frame body ++ after) where
  header :
      (rest : List Event) × (recv_all 4 es ≡ got (htonl (length body)) rest)
      × Open rest
      × (flat rest ≡ body ++ after)
  header =
      let (rest, e, o', f) = recv_all_lem 4 es o (rw there (omega (arith, length-++ body after))) in
      (rest, e ∙ ap (λ t. got (take 4 t) rest) there, o', f ∙ ap (drop 4) there)

  whole_body :
      (ms : List Event)
      → Open ms
      → flat ms ≡ body ++ after
      → (rest : List Event) × (recv_all (length body) ms ≡ got body rest)
        × Open rest
        × (flat rest ≡ after)
  whole_body ms o' f =
      let n = length body in
      let none_left : n - n ≡ 0 = omega arith in
      let (rest, e, o'', g) = recv_all_lem n ms o' (rw f (omega (arith, length-++ body after))) in
      (
        rest,
        e
            ∙ ap (λ t. got t rest)
                (ap (take n) f ∙ (take_inside n body after (omega arith) ∙ take_all body)),
        o'',
        g
            ∙ (ap (drop n) f
                ∙ (drop_behind n body after (omega arith) ∙ ap (λ k. drop k after) none_left)),
      )

  module _ (m : M) (parses : unpack body ≡ some m) (some_bytes : 1 ≤ length body)
      (short : length body < 4294967296) where
    body_read :
        (ms : List Event)
        → Open ms
        → flat ms ≡ body ++ after
        → (rest : List Event) × (receive_body unpack (length body) ms ≡ message m rest)
          × Open rest
          × (flat rest ≡ after)
    unfolding receive_body parse_body
    body_read ms o' f =
        let (rest, e, o'', g) = whole_body ms o' f in
        let full : (length body == 0) ≡ false = ground arith in
        (rest, rw (e, receive_body, full, parses, parse_body), o'', g)

    -- A framed message of at least one byte and less than 2^32 that waits on the stream, cut up in any
    -- way and with any signals between, is read by the server as the message that its body unpacks to;
    -- what comes after it stays on the stream.
    pub receive_client_message_lem :
        (rest : List Event) × (receive_client_message unpack es ≡ message m rest)
        × Open rest
        × (flat rest ≡ after)
    unfolding receive_client_message
    receive_client_message_lem =
        let (ms, e, o', f) = header in
        let (rest, r, o'', g) = body_read ms o' f in
        (
          rest,
          rw (e, receive_client_message)
              (ap (λ n. receive_body unpack n ms) (ntohl-htonl (length body) short) ∙ r),
          o'',
          g,
        )

    -- The same of a client, for a message of at most a megabyte.
    pub receive_server_message_lem :
        length body ≤ 1048576
        → (rest : List Event) × (receive_server_message unpack es ≡ message m rest)
          × Open rest
          × (flat rest ≡ after)
    unfolding receive_server_message
    receive_server_message_lem small =
        let (ms, e, o', f) = header in
        let (rest, r, o'', g) = body_read ms o' f in
        let within : ltb 1048576 (ntohl (htonl (length body))) ≡ false =
          ground (arith, ntohl-htonl (length body) short) in
        (
          rest,
          rw (e, receive_server_message, within)
              (ap (λ n. receive_body unpack n ms) (ntohl-htonl (length body) short) ∙ r),
          o'',
          g,
        )

-- A message that packs to no byte at all is read as a closed connection, although its frame is on
-- the stream.
pub empty_message :
    {M : Type 0} (unpack : Text → Option M) (es : List Event) (after : Text)
    → Open es
    → flat es ≡ frame [] ++ after
    → receive_client_message unpack es ≡ null
unfolding receive_client_message receive_body recv_all recv_loop
empty_message unpack es after o there =
    let (ms, e, o', f) = header unpack es [] after o there in rw (e, receive_client_message)

-- What a sender whose calls do not fail has put on the stream is the frame of its message.
pub send_packed_lem :
    (calls : List Send) (body : Text)
    → Healthy calls
    → length (frame body) ≤ writes calls
    → stream_of (send_packed calls body) ≡ frame body
unfolding send_packed
send_packed_lem calls body h enough =
    ap (λ s. stream_of (int_result s)) (send_all_lem calls (frame body) h enough)

-- From end to end: a message that packs to at least one byte and less than 2^32, sent by calls that do
-- not fail, is read by the server as the same message, however the bytes are cut up on either side
-- and whatever signals come between; what follows it stays on the stream.
pub message_carried :
    {M : Type 0} (pack : M → Text) (unpack : Text → Option M) (m : M) (calls : List Send)
    (es : List Event) (after : Text)
    → unpack (pack m) ≡ some m
    → 1 ≤ length (pack m)
    → length (pack m) < 4294967296
    → Healthy calls
    → length (frame (pack m)) ≤ writes calls
    → Open es
    → flat es ≡ stream_of (send_packed calls (pack m)) ++ after
    → (rest : List Event) × (receive_client_message unpack es ≡ message m rest)
      × Open rest
      × (flat rest ≡ after)
message_carried pack unpack m calls es after parses some_bytes short h enough o there =
    receive_client_message_lem unpack es (pack m) after o
      (there ∙ ap (λ s. s ++ after) (send_packed_lem calls (pack m) h enough)) m parses some_bytes
      short
