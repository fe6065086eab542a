-- ===== src/Net/Client.antt =====
-- src/client/network/client.cpp: the client's end. Its handlers run on a strand. Of boost::asio the state counts the
-- operations that are pending, of each kind.
pub mod Orderly
pub mod Writes
pub mod Invariant
pub mod Outbox
pub mod Sole
use dungeon_crawler.Base.{
  leb, if◌then◌else◌, is_nil, length, ℕ, ◌+◌, ◌-◌, ◌<◌, Bool, true, false, not, ◌||◌, Option, none,
  some, List, [], ◌∷◌, ◌++◌, map,
}
use dungeon_crawler.Frame.{ByteBuffer, encode_frame, extract_frames}

pub data ConnectionState : Type 0 where
  disconnected connecting connected : ConnectionState

-- The calls of the three callbacks
pub data Callback : Type 0 where
  connect_seen disconnect_seen : Callback
  message_seen : ByteBuffer → Callback

-- `Client`. `is_open` is `socket_.is_open()`, `has_callbacks` whether the callbacks are set.
pub record ClientState : Type 0 where
  pub state : ConnectionState
  pub is_open : Bool
  pub has_callbacks : Bool
  pub read_buffer : ByteBuffer
  pub write_queue : List ByteBuffer
  pub current_write_message : ByteBuffer
  pub writing : Bool
  pub resolves : ℕ
  pub connects : ℕ
  pub reads : ℕ
  pub writes : ℕ

abbrev pub ClientOutcome : Type 0
ClientOutcome = ClientState × List Callback

abbrev pub max_queue_size : ℕ
max_queue_size = 1000

unfoldable pub new_client : Bool → ClientState
new_client has_callbacks = record {
  state = disconnected;
  is_open = false;
  has_callbacks = has_callbacks;
  read_buffer = [];
  write_queue = [];
  current_write_message = [];
  writing = false;
  resolves = 0;
  connects = 0;
  reads = 0;
  writes = 0;
}

unfoldable pub state_is_connected : ConnectionState → Bool
state_is_connected connected = true
state_is_connected _ = false

unfoldable pub state_is_disconnected : ConnectionState → Bool
state_is_disconnected disconnected = true
state_is_disconnected _ = false

unfoldable pub is_connected : ClientState → Bool
is_connected s = state_is_connected s.state

unfoldable pub reset_state : ClientState → ClientState
reset_state s = record s {
  write_queue = [];
  writing = false;
  current_write_message = [];
  read_buffer = [];
}

unfoldable pub close_socket : ClientState → ClientState
close_socket s = record s { is_open = false }

-- `startConnect`: the resolver is cancelled and the socket closed (`cleanupSocket`), and resolving begins
-- (`doStartConnect`).
unfoldable pub start_connect : ClientState → ClientState
start_connect s =
    let clean : ClientState = reset_state (close_socket s) in
    record clean { state = connecting; resolves = clean.resolves + 1 }

unfoldable pub callback : Bool → Callback → List Callback
callback set call = if set then call ∷ [] else []

unfoldable pub handle_disconnect : ClientState → ClientOutcome
handle_disconnect s = if state_is_disconnected s.state then (s, []) else (
  close_socket (reset_state (record s { state = disconnected })),
  callback s.has_callbacks disconnect_seen,
)

-- The handler of the resolver
unfoldable pub on_resolved : ClientState → ClientState
on_resolved s = record s { resolves = s.resolves - 1; connects = s.connects + 1 }

unfoldable pub on_resolve_error : ClientState → ClientOutcome
on_resolve_error s = handle_disconnect (record s { resolves = s.resolves - 1 })

unfoldable pub read_more : ClientState → ClientState
read_more s = if is_connected s then record s { reads = s.reads + 1 } else s

-- The handler of the connection. Whether the socket is open is left as it is: `async_connect` opened it, and whatever
-- closed it since then has closed it.
unfoldable pub on_connected : ClientState → ClientOutcome
on_connected s = (
  read_more (record s { connects = s.connects - 1; state = connected }),
  callback s.has_callbacks connect_seen,
)

unfoldable pub on_connect_error : ClientState → ClientOutcome
on_connect_error s = handle_disconnect (record s { connects = s.connects - 1 })

-- The handler of a read
unfoldable pub deliver : Option (List ByteBuffer × ByteBuffer) → ClientState → ClientOutcome
deliver none s = (s, [])
deliver (some (messages, rest)) s = (
  read_more (record s { read_buffer = rest }),
  if s.has_callbacks then map message_seen messages else [],
)

unfoldable pub on_bytes : ByteBuffer → ClientState → ClientOutcome
on_bytes bytes s =
    deliver (extract_frames (s.read_buffer ++ bytes)) (record s { reads = s.reads - 1 })

unfoldable pub on_bytes_error : ClientState → ClientOutcome
on_bytes_error s = handle_disconnect (record s { reads = s.reads - 1 })

-- `doWrite`
unfoldable pub begin_write : List ByteBuffer → ClientState → ClientState
begin_write [] s = s
begin_write (message ∷ queue) s = if s.writing || not (is_connected s) then s else record s {
  writing = true;
  current_write_message = message;
  write_queue = queue;
  writes = s.writes + 1;
}

unfoldable pub write_next : ClientState → ClientState
write_next s = begin_write s.write_queue s

-- `send`
unfoldable pub queue_message : ByteBuffer → ClientState → ClientState
queue_message encoded s =
    if leb max_queue_size (length s.write_queue)
    then s
    else let queued : ClientState = record s { write_queue = s.write_queue ++ (encoded ∷ []) } in
      if not s.writing then write_next queued else queued

unfoldable pub send_message : ByteBuffer → ClientState → ClientState
send_message message s =
    if not (is_connected s) || not s.is_open
    then s
    else if is_nil (encode_frame message)
    then s
    else queue_message (encode_frame message) s

-- The handler of a write
unfoldable pub on_written : ClientState → ClientState
on_written s =
    let done : ClientState = record s { writing = false; writes = s.writes - 1 } in
    if not (is_nil s.write_queue) then write_next done else done

unfoldable pub on_written_error : ClientState → ClientOutcome
on_written_error s = handle_disconnect (record s { writing = false; writes = s.writes - 1 })

-- While it connects, `async_connect` opens the socket, and closes it between two endpoints.
unfoldable pub set_open : Bool → ClientState → ClientState
set_open b s = record s { is_open = b }

-- What can happen to a client: a call, the completion of a pending operation, or what `async_connect` does to the socket.
pub data ClientInput : Type 0 where
  start_connect_called resolved resolve_failed connection_made connection_failed : ClientInput
  bytes_received message_sent : ByteBuffer → ClientInput
  bytes_failed message_written write_broken disconnect_requested : ClientInput
  socket_set : Bool → ClientInput

unfoldable pub handle_client : ClientInput → ClientState → ClientOutcome
handle_client start_connect_called s = (start_connect s, [])
handle_client resolved s = (on_resolved s, [])
handle_client resolve_failed s = on_resolve_error s
handle_client connection_made s = on_connected s
handle_client connection_failed s = on_connect_error s
handle_client (bytes_received bytes) s = on_bytes bytes s
handle_client bytes_failed s = on_bytes_error s
handle_client (message_sent message) s = (send_message message s, [])
handle_client message_written s = (on_written s, [])
handle_client write_broken s = on_written_error s
handle_client disconnect_requested s = handle_disconnect s
handle_client (socket_set b) s = (set_open b s, [])

-- Only a pending operation completes, with or without an error. A connection can be started at any time, also while
-- operations of an earlier one are pending, whose handlers run later: to cancel or to close does not take them away.
abbrev pub CanHappen : ClientInput → ClientState → Type 0
CanHappen start_connect_called s = Unit
CanHappen resolved s = 0 < s.resolves
CanHappen resolve_failed s = 0 < s.resolves
CanHappen connection_made s = 0 < s.connects
CanHappen connection_failed s = 0 < s.connects
CanHappen (bytes_received bytes) s = 0 < s.reads
CanHappen bytes_failed s = 0 < s.reads
CanHappen (message_sent message) s = Unit
CanHappen message_written s = 0 < s.writes
CanHappen write_broken s = 0 < s.writes
CanHappen disconnect_requested s = Unit
CanHappen (socket_set b) s = 0 < s.connects

pub data Reached (has_callbacks : Bool) : ClientState → Type 0 where
  fresh : Reached has_callbacks (new_client has_callbacks)
  then_happens :
      (s : ClientState) (input : ClientInput)
      → Reached has_callbacks s
      → CanHappen input s
      → Reached has_callbacks (handle_client input s).0
