-- ===== src/Net/Session.antt =====
-- src/server/network/session.cpp: the session of one client, whose handlers run on a strand. Of boost::asio the
-- state keeps which operations are pending: whether a read is, and the buffers of the writes.
pub mod Reading
pub mod Writing
pub mod Leaving
use dungeon_crawler.Base.{
  if◌then◌else◌, is_nil, length, ℕ, zero, suc, ◌*◌, ◌≤◌, ◌<◌, ◌≡◌, Bool, true, false, not, Option,
  none, some, List, [], ◌∷◌, ◌++◌, map,
}
use dungeon_crawler.Frame.{ByteBuffer, encode_frame, extract_frames}

-- What the session publishes
pub data SessionEvent : Type 0 where
  client_connected : ℕ → SessionEvent
  raw_message_received : ℕ → ByteBuffer → SessionEvent
  client_disconnected : ℕ → SessionEvent

-- `Session`. `is_open` is `socket_.is_open()`; `reading` and `in_flight` are what asio has not completed.
pub record SessionState : Type 0 where
  pub session_id : ℕ
  pub connected : Bool
  pub is_open : Bool
  pub read_buffer : ByteBuffer
  pub write_queue : List ByteBuffer
  pub reading : Bool
  pub in_flight : List ByteBuffer

abbrev pub buffer_chunk_size : ℕ
buffer_chunk_size = 16 * 1024

abbrev pub Outcome : Type 0
Outcome = SessionState × List SessionEvent

unfoldable pub do_read : SessionState → SessionState
do_read s = if s.is_open then record s { reading = true } else s

-- The session of a socket that was accepted, with its first read, as `start` leaves it.
unfoldable pub start : ℕ → Outcome
start sid = (
  do_read (record {
    session_id = sid;
    connected = true;
    is_open = true;
    read_buffer = [];
    write_queue = [];
    reading = false;
    in_flight = [];
  }),
  client_connected sid ∷ [],
)

-- `doWrite` takes the message off the queue before its write is complete.
unfoldable pub write_first : List ByteBuffer → SessionState → SessionState
write_first [] s = s
write_first (message ∷ queue) s = record s {
  write_queue = queue;
  in_flight = s.in_flight ++ (message ∷ []);
}

unfoldable pub do_write : SessionState → SessionState
do_write s = if s.is_open then write_first s.write_queue s else s

unfoldable pub enqueue : ByteBuffer → SessionState → SessionState
enqueue encoded s =
    let queued : SessionState = record s { write_queue = s.write_queue ++ (encoded ∷ []) } in
    if is_nil s.write_queue then do_write queued else queued

unfoldable pub send : ByteBuffer → SessionState → SessionState
send raw_message s =
    if not s.connected
    then s
    else if is_nil (encode_frame raw_message)
    then s
    else enqueue (encode_frame raw_message) s

unfoldable pub do_disconnect : SessionState → Outcome
do_disconnect s =
    if s.connected
    then (
      record s { connected = false; write_queue = []; is_open = false },
      client_disconnected s.session_id ∷ [],
    )
    else (s, [])

-- `processMessage` for each payload, and the next read
unfoldable pub process_messages : Option (List ByteBuffer × ByteBuffer) → SessionState → Outcome
process_messages none s = (s, [])
process_messages (some (messages, rest)) s =
    (do_read (record s { read_buffer = rest }), map (raw_message_received s.session_id) messages)

-- The handler of a read: with the bytes, or with an error
unfoldable pub on_read : ByteBuffer → SessionState → Outcome
on_read bytes s =
    process_messages (extract_frames (s.read_buffer ++ bytes)) (record s { reading = false })

unfoldable pub on_read_error : SessionState → Outcome
on_read_error s = do_disconnect (record s { reading = false })

-- The handler of the write that is pending at this place: without an error, or with one
unfoldable pub without : ℕ → List ByteBuffer → List ByteBuffer
without i [] = []
without zero (m ∷ ms) = ms
without (suc i) (m ∷ ms) = m ∷ without i ms

unfoldable pub on_write : ℕ → SessionState → SessionState
on_write i s =
    let done : SessionState = record s { in_flight = without i s.in_flight } in
    if is_nil s.write_queue then done else do_write done

unfoldable pub on_write_error : ℕ → SessionState → Outcome
on_write_error i s = do_disconnect (record s { in_flight = without i s.in_flight })

-- What can happen to a session: a call from the server, or the completion of a pending operation.
pub data Input : Type 0 where
  sent received : ByteBuffer → Input
  read_failed disconnect_called : Input
  written write_failed : ℕ → Input

unfoldable pub handle_input : Input → SessionState → Outcome
handle_input (sent message) s = (send message s, [])
handle_input (received bytes) s = on_read bytes s
handle_input read_failed s = on_read_error s
handle_input disconnect_called s = do_disconnect s
handle_input (written i) s = (on_write i s, [])
handle_input (write_failed i) s = on_write_error i s

-- Only an operation that is pending completes.
abbrev pub IsPossible : Input → SessionState → Type 0
IsPossible (sent message) s = Unit
IsPossible (received bytes) s = (s.reading ≡ true) × (length bytes ≤ buffer_chunk_size)
IsPossible read_failed s = s.reading ≡ true
IsPossible disconnect_called s = Unit
IsPossible (written i) s = i < length s.in_flight
IsPossible (write_failed i) s = i < length s.in_flight

-- A session from its start: what happened, what it published, and its state.
pub data Run (sid : ℕ) : List Input → List SessionEvent → SessionState → Type 0 where
  started : Run sid [] (start sid).1 (start sid).0
  then_handles :
      (inputs : List Input) (events : List SessionEvent) (s : SessionState) (input : Input)
      → Run sid inputs events s
      → IsPossible input s
      → Run sid
          (inputs ++ (input ∷ []))
          (events ++ (handle_input input s).1)
          (handle_input input s).0
