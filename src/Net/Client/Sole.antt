-- ===== src/Net/Client/Sole.antt =====
-- When two writes of the client can be pending at once.
use dungeon_crawler.Base.{
  leb, if◌then◌else◌, Bool-cases, is_nil, length, ℕ, ◌+◌, ◌-◌, ◌≤◌, ◌≡◌, refl, ◌∙◌, ◌⊎◌, inl, inr,
  Bool, true, false, not, ◌||◌, Option, none, some, List, [], ◌∷◌, ◌++◌, arith, dec_le,
}
use dungeon_crawler.Frame.{ByteBuffer, encode_frame, extract_frames}
use dungeon_crawler.Net.Client.{
  connected, ClientState, max_queue_size, state_is_connected, state_is_disconnected, is_connected,
  reset_state, close_socket, start_connect, handle_disconnect, on_resolved, on_resolve_error,
  read_more, on_connected, on_connect_error, deliver, on_bytes, on_bytes_error, begin_write,
  write_next, queue_message, send_message, on_written, on_written_error, set_open, ClientInput,
  start_connect_called, resolved, resolve_failed, connection_made, connection_failed,
  bytes_received, message_sent, bytes_failed, message_written, write_broken, disconnect_requested,
  socket_set, handle_client,
}
use dungeon_crawler.Net.Client.Orderly.{closed, handle_disconnect-cases}
use dungeon_crawler.Net.Client.Writes.{on_written_lem}

-- No write is pending but the one that the client takes to be in progress.
pub record IsSole (s : ClientState) : Type 0 where
  pub one : s.writes ≤ 1
  pub idle : s.writing ≡ false → s.writes ≡ 0

-- The client is not connected any more, and has forgotten a write that is still pending.
abbrev pub IsCutOff : ClientState → ClientState → Type 0
IsCutOff s t = (s.writes ≡ 1) × (t.writes ≡ 1) × (t.writing ≡ false) × (is_connected t ≡ false)

idle-IsSole : (s : ClientState) → s.writes ≡ 0 → IsSole s
idle-IsSole s h = record { one = omega (arith, h); idle = λ k. h }

either-IsSole : (b : Bool) (s t : ClientState) → IsSole s → IsSole t → IsSole (if b then s else t)
either-IsSole true s t h k = h
either-IsSole false s t h k = k

unless-IsSole :
    (b : Bool) (s t : ClientState)
    → IsSole s
    → (b ≡ false → IsSole t)
    → IsSole (if not b then t else s)
unless-IsSole true s t h k = h
unless-IsSole false s t h k = k refl

begin_write-IsSole :
    (queue : List ByteBuffer) (s : ClientState) → s.writes ≡ 0 → IsSole (begin_write queue s)
unfolding begin_write
begin_write-IsSole [] s h = idle-IsSole s h
begin_write-IsSole (m ∷ queue) s h =
    either-IsSole (s.writing || not (is_connected s)) s
      (record s {
        writing = true;
        current_write_message = m;
        write_queue = queue;
        writes = s.writes + 1;
      })
      (idle-IsSole s h) (record { one = omega (arith, h); idle = λ k. absurd (cc k) })

queue_message-IsSole : (m : ByteBuffer) (s : ClientState) → IsSole s → IsSole (queue_message m s)
unfolding queue_message write_next
queue_message-IsSole m s h =
    let queue = s.write_queue ++ (m ∷ []) in
    let queued : ClientState = record s { write_queue = queue } in
    let waits : IsSole queued = record { one = h.one; idle = h.idle } in
    either-IsSole (leb max_queue_size (length s.write_queue)) s
      (if not s.writing then begin_write queue queued else queued) h
      (unless-IsSole s.writing queued (begin_write queue queued) waits
        (λ e. begin_write-IsSole queue queued (h.idle e)))

send_message-IsSole : (m : ByteBuffer) (s : ClientState) → IsSole s → IsSole (send_message m s)
unfolding send_message
send_message-IsSole m s h =
    either-IsSole (not (is_connected s) || not s.is_open) s
      (if is_nil (encode_frame m) then s else queue_message (encode_frame m) s) h
      (either-IsSole (is_nil (encode_frame m)) s (queue_message (encode_frame m) s) h
        (queue_message-IsSole (encode_frame m) s h))

-- A client that forgets its write, with the count of the writes kept
forget-cases :
    (s t : ClientState)
    → IsSole s
    → t.writes ≡ s.writes
    → t.writing ≡ false
    → is_connected t ≡ false
    → IsSole t ⊎ IsCutOff s t
forget-cases s t h same quiet off = elim (dec_le 1 s.writes) [
  | yes k ↦ let once : s.writes ≡ 1 = omega (arith, k, h.one) in inr (once, same ∙ once, quiet, off)
  | no k ↦ inl (idle-IsSole t (omega (arith, k, same)))
]

-- Only the counts of resolving, connecting and reading change, and then the client may be closed.
handle_disconnect-IsSole :
    (s : ClientState) (resolves connects reads : ℕ)
    → IsSole s
    → let u : ClientState = record s { resolves = resolves; connects = connects; reads = reads } in
      IsSole (handle_disconnect u).0 ⊎ IsCutOff s (handle_disconnect u).0
unfolding close_socket reset_state is_connected state_is_connected
handle_disconnect-IsSole s resolves connects reads h =
    let u : ClientState = record s { resolves = resolves; connects = connects; reads = reads } in
    rw (handle_disconnect-cases u) (elim (Bool-cases (state_is_disconnected s.state)) [
      | inl e ↦ rw e (inl (record { one = h.one; idle = h.idle }))
      | inr e ↦ rw e (forget-cases s (closed u) h refl refl refl)
    ])

read_more-IsSole : (s : ClientState) → IsSole s → IsSole (read_more s)
unfolding read_more
read_more-IsSole s h =
    either-IsSole (is_connected s) (record s { reads = s.reads + 1 }) s
      (record { one = h.one; idle = h.idle }) h

deliver-IsSole :
    (o : Option (List ByteBuffer × ByteBuffer)) (s : ClientState)
    → IsSole s
    → IsSole (deliver o s).0
unfolding deliver
deliver-IsSole none s h = h
deliver-IsSole (some (ms, r)) s h =
    read_more-IsSole (record s { read_buffer = r }) (record { one = h.one; idle = h.idle })

on_written-IsSole : (s : ClientState) → IsSole s → IsSole (on_written s)
on_written-IsSole s h = rw (on_written_lem s) (
    begin_write-IsSole s.write_queue (record s { writing = false; writes = s.writes - 1 })
      (omega (arith, h.one)))

on_written_error-IsSole : (s : ClientState) → IsSole s → IsSole (on_written_error s).0
unfolding on_written_error close_socket reset_state
on_written_error-IsSole s h =
    let done : ClientState = record s { writing = false; writes = s.writes - 1 } in
    let over : done.writes ≡ 0 = omega (arith, h.one) in
    rw (handle_disconnect-cases done) (
      either-IsSole (state_is_disconnected s.state) done (closed done) (idle-IsSole done over)
        (idle-IsSole (closed done) over))

-- If no write is pending but the one that the client takes to be in progress, then this is so after whatever happens
-- next, unless what happens makes the client forget a pending write: a connection that is started, or a disconnection.
-- In particular no message that is sent, read or written to its end begins a second write.
pub handle_client-IsSole :
    (input : ClientInput) (s : ClientState)
    → IsSole s
    → IsSole (handle_client input s).0 ⊎ IsCutOff s (handle_client input s).0
unfolding handle_client start_connect close_socket reset_state is_connected state_is_connected
    on_resolved on_resolve_error on_connected on_connect_error on_bytes on_bytes_error set_open
handle_client-IsSole start_connect_called s h = forget-cases s (start_connect s) h refl refl refl
handle_client-IsSole resolved s h = inl (record { one = h.one; idle = h.idle })
handle_client-IsSole resolve_failed s h =
    handle_disconnect-IsSole s (s.resolves - 1) s.connects s.reads h
handle_client-IsSole connection_made s h = inl (
    read_more-IsSole (record s { connects = s.connects - 1; state = connected })
      (record { one = h.one; idle = h.idle }))
handle_client-IsSole connection_failed s h =
    handle_disconnect-IsSole s s.resolves (s.connects - 1) s.reads h
handle_client-IsSole (bytes_received bytes) s h = inl (
    deliver-IsSole (extract_frames (s.read_buffer ++ bytes)) (record s { reads = s.reads - 1 })
      (record { one = h.one; idle = h.idle }))
handle_client-IsSole bytes_failed s h =
    handle_disconnect-IsSole s s.resolves s.connects (s.reads - 1) h
handle_client-IsSole (message_sent m) s h = inl (send_message-IsSole m s h)
handle_client-IsSole message_written s h = inl (on_written-IsSole s h)
handle_client-IsSole write_broken s h = inl (on_written_error-IsSole s h)
handle_client-IsSole disconnect_requested s h =
    handle_disconnect-IsSole s s.resolves s.connects s.reads h
handle_client-IsSole (socket_set b) s h = inl (record { one = h.one; idle = h.idle })
