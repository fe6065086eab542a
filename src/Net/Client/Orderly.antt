-- ===== src/Net/Client/Orderly.antt =====
-- What holds of the client's queue and its pending write in every state.
use dungeon_crawler.Base.{
  if◌then◌else◌, length, ℕ, ◌+◌, ◌-◌, ◌≤◌, ◌<◌, ◌≡◌, refl, ap, Bool, true, false, Option, none,
  some, List, [], arith,
}
use dungeon_crawler.Frame.{ByteBuffer}
use dungeon_crawler.Net.Client.{
  disconnected, connected, ClientState, max_queue_size, new_client, state_is_connected,
  state_is_disconnected, is_connected, reset_state, close_socket, start_connect, handle_disconnect,
  read_more, on_connected, deliver, set_open,
}

-- The write that the client knows of is pending; messages wait only behind a write that it knows of, and only in a
-- connected client; and the queue is bounded.
pub record IsOrderly (s : ClientState) : Type 0 where
  pub write_known : s.writing ≡ true → 0 < s.writes
  pub waits : s.writing ≡ false → s.write_queue ≡ []
  pub offline : is_connected s ≡ false → s.writing ≡ false
  pub bounded : length s.write_queue ≤ max_queue_size

-- A client that has neither a write nor a message
pub quiet-IsOrderly : (s : ClientState) → s.writing ≡ false → s.write_queue ≡ [] → IsOrderly s
quiet-IsOrderly s quiet none_waits = record {
  write_known = λ h. absurd (cc (h, quiet));
  waits = λ h. none_waits;
  offline = λ h. quiet;
  bounded = omega (arith, ap length none_waits);
}

pub new_client-IsOrderly : (b : Bool) → IsOrderly (new_client b)
unfolding new_client
new_client-IsOrderly b = quiet-IsOrderly (new_client b) refl refl

pub start_connect-IsOrderly : (s : ClientState) → IsOrderly (start_connect s)
unfolding start_connect reset_state close_socket
start_connect-IsOrderly s = quiet-IsOrderly (start_connect s) refl refl

pub either-IsOrderly :
    (b : Bool) (s t : ClientState) → IsOrderly s → IsOrderly t → IsOrderly (if b then s else t)
either-IsOrderly true s t h k = h
either-IsOrderly false s t h k = k

-- A client that was closed, with the operations that are pending
abbrev pub closed : ClientState → ClientState
closed s = close_socket (reset_state (record s { state = disconnected }))

pub closed-IsOrderly : (s : ClientState) → IsOrderly (closed s)
unfolding close_socket reset_state
closed-IsOrderly s = quiet-IsOrderly (closed s) refl refl

pub handle_disconnect-cases :
    (s : ClientState)
    → (handle_disconnect s).0 ≡ (if state_is_disconnected s.state then s else closed s)
unfolding handle_disconnect
handle_disconnect-cases s = ground arith

pub handle_disconnect-IsOrderly :
    (s : ClientState) → IsOrderly s → IsOrderly (handle_disconnect s).0
handle_disconnect-IsOrderly s h =
    rw (handle_disconnect-cases s)
      (either-IsOrderly (state_is_disconnected s.state) s (closed s) h (closed-IsOrderly s))

-- Only the counts of resolving, connecting and reading change, the bytes that were read, or whether the socket is open.
pub settle-IsOrderly :
    (s : ClientState) (resolves connects reads : ℕ) (bytes : ByteBuffer) (is_open : Bool)
    → IsOrderly s
    → IsOrderly (record s {
      resolves = resolves;
      connects = connects;
      reads = reads;
      read_buffer = bytes;
      is_open = is_open;
    })
unfolding is_connected
settle-IsOrderly s resolves connects reads bytes is_open h = record {
  write_known = h.write_known;
  waits = h.waits;
  offline = h.offline;
  bounded = h.bounded;
}

pub set_open-IsOrderly : (b : Bool) (s : ClientState) → IsOrderly s → IsOrderly (set_open b s)
unfolding set_open
set_open-IsOrderly b s h = settle-IsOrderly s s.resolves s.connects s.reads s.read_buffer b h

read_more-IsOrderly : (s : ClientState) → IsOrderly s → IsOrderly (read_more s)
unfolding read_more
read_more-IsOrderly s h =
    either-IsOrderly (is_connected s) (record s { reads = s.reads + 1 }) s
      (settle-IsOrderly s s.resolves s.connects (s.reads + 1) s.read_buffer s.is_open h) h

pub deliver-IsOrderly :
    (o : Option (List ByteBuffer × ByteBuffer)) (s : ClientState)
    → IsOrderly s
    → IsOrderly (deliver o s).0
unfolding deliver
deliver-IsOrderly none s h = h
deliver-IsOrderly (some (ms, r)) s h =
    read_more-IsOrderly (record s { read_buffer = r })
      (settle-IsOrderly s s.resolves s.connects s.reads r s.is_open h)

pub on_connected-IsOrderly : (s : ClientState) → IsOrderly s → IsOrderly (on_connected s).0
unfolding on_connected is_connected state_is_connected
on_connected-IsOrderly s h =
    read_more-IsOrderly (record s { connects = s.connects - 1; state = connected })
      (record {
        write_known = h.write_known;
        waits = h.waits;
        offline = λ k. absurd (cc k);
        bounded = h.bounded;
      })
