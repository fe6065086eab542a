-- ===== src/Net/Client/Invariant.antt =====
-- Every handler of the client keeps it orderly.
use dungeon_crawler.Base.{Bool-cases, ◌+◌, ◌-◌, ◌≡◌, refl, inl, inr, Bool, true, false, ◌++◌}
use dungeon_crawler.Frame.{extract_frames}
use dungeon_crawler.Net.Client.{
  ConnectionState, disconnected, connecting, connected, ClientState, state_is_connected,
  state_is_disconnected, is_connected, on_resolved, on_resolve_error, on_connect_error, on_bytes,
  on_bytes_error, on_written_error, ClientInput, start_connect_called, resolved, resolve_failed,
  connection_made, connection_failed, bytes_received, message_sent, bytes_failed, message_written,
  write_broken, disconnect_requested, socket_set, handle_client, Reached, fresh, then_happens,
}
use dungeon_crawler.Net.Client.Orderly.{
  IsOrderly, quiet-IsOrderly, new_client-IsOrderly, start_connect-IsOrderly, closed-IsOrderly,
  handle_disconnect-cases, handle_disconnect-IsOrderly, settle-IsOrderly, set_open-IsOrderly,
  deliver-IsOrderly, on_connected-IsOrderly,
}
use dungeon_crawler.Net.Client.Writes.{on_written-IsOrderly, send_message-IsOrderly}

disconnected_lem :
    (t : ConnectionState) → state_is_disconnected t ≡ true → state_is_connected t ≡ false
unfolding state_is_disconnected state_is_connected
disconnected_lem disconnected h = refl
disconnected_lem connecting h = absurd (cc h)
disconnected_lem connected h = absurd (cc h)

on_written_error-IsOrderly : (s : ClientState) → IsOrderly s → IsOrderly (on_written_error s).0
unfolding on_written_error is_connected
on_written_error-IsOrderly s h =
    let done : ClientState = record s { writing = false; writes = s.writes - 1 } in
    rw (handle_disconnect-cases done) (elim (Bool-cases (state_is_disconnected s.state)) [
      | inl e ↦ rw e (quiet-IsOrderly done refl (h.waits (h.offline (disconnected_lem s.state e))))
      | inr e ↦ rw e (closed-IsOrderly done)
    ])

input-IsOrderly :
    (input : ClientInput) (s : ClientState) → IsOrderly s → IsOrderly (handle_client input s).0
unfolding handle_client on_resolved on_resolve_error on_connect_error on_bytes on_bytes_error
input-IsOrderly start_connect_called s h = start_connect-IsOrderly s
input-IsOrderly resolved s h =
    settle-IsOrderly s (s.resolves - 1) (s.connects + 1) s.reads s.read_buffer s.is_open h
input-IsOrderly resolve_failed s h =
    handle_disconnect-IsOrderly (record s { resolves = s.resolves - 1 })
      (settle-IsOrderly s (s.resolves - 1) s.connects s.reads s.read_buffer s.is_open h)
input-IsOrderly connection_made s h = on_connected-IsOrderly s h
input-IsOrderly connection_failed s h =
    handle_disconnect-IsOrderly (record s { connects = s.connects - 1 })
      (settle-IsOrderly s s.resolves (s.connects - 1) s.reads s.read_buffer s.is_open h)
input-IsOrderly (bytes_received bytes) s h =
    deliver-IsOrderly (extract_frames (s.read_buffer ++ bytes)) (record s { reads = s.reads - 1 })
      (settle-IsOrderly s s.resolves s.connects (s.reads - 1) s.read_buffer s.is_open h)
input-IsOrderly bytes_failed s h =
    handle_disconnect-IsOrderly (record s { reads = s.reads - 1 })
      (settle-IsOrderly s s.resolves s.connects (s.reads - 1) s.read_buffer s.is_open h)
input-IsOrderly (message_sent m) s h = send_message-IsOrderly m s h
input-IsOrderly message_written s h = on_written-IsOrderly s h
input-IsOrderly write_broken s h = on_written_error-IsOrderly s h
input-IsOrderly disconnect_requested s h = handle_disconnect-IsOrderly s h
input-IsOrderly (socket_set b) s h = set_open-IsOrderly b s h

-- In every state that the client reaches, also by connecting again while operations are pending: if it takes a write to
-- be in progress, one is pending; messages wait only behind a write that it takes to be in progress; it takes one to be
-- in progress only while it is connected; and at most 1000 messages wait.
pub Reached-IsOrderly : (b : Bool) (s : ClientState) → Reached b s → IsOrderly s
Reached-IsOrderly b _ fresh = new_client-IsOrderly b
Reached-IsOrderly b _ (then_happens s input run can) =
    input-IsOrderly input s (Reached-IsOrderly b s run)
