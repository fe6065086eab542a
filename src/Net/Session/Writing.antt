-- ===== src/Net/Session/Writing.antt =====
-- What a session writes.
use dungeon_crawler.Base.{
  Bool-cases, is_nil, ℕ, ◌≡◌, refl, inl, inr, true, false, Option, none, some, List, [], ◌∷◌, ◌++◌,
  arith,
}
use dungeon_crawler.Frame.{ByteBuffer, store_u32, encode_frame, extract_frames}
use dungeon_crawler.Frame.RoundTrip.{IsSmall}
use dungeon_crawler.Net.Session.{
  SessionEvent, SessionState, do_read, start, write_first, do_write, enqueue, send, do_disconnect,
  process_messages, on_read, on_read_error, without, on_write, on_write_error, Input, sent,
  received, read_failed, disconnect_called, written, write_failed, handle_input, Run, started,
  then_handles,
}

-- Between handlers no message waits, and the socket of a connected session is open.
abbrev pub IsDrained : SessionState → Type 0
IsDrained s = (s.write_queue ≡ []) × (s.connected ≡ s.is_open)

do_read-IsDrained : (s : SessionState) → IsDrained s → IsDrained (do_read s)
unfolding do_read
do_read-IsDrained s h = ground (arith, h)

do_disconnect-IsDrained : (s : SessionState) → IsDrained s → IsDrained (do_disconnect s).0
unfolding do_disconnect
do_disconnect-IsDrained s h = ground (arith, h)

enqueue_drained :
    (m : ByteBuffer) (s : SessionState)
    → IsDrained s
    → s.connected ≡ true
    → enqueue m s ≡ record s { write_queue = []; in_flight = s.in_flight ++ (m ∷ []) }
unfolding enqueue do_write write_first
enqueue_drained m s h e = ground (arith, h, e)

encode_frame-nil : (m : ByteBuffer) → IsSmall m → is_nil (encode_frame m) ≡ false
unfolding encode_frame store_u32
encode_frame-nil m h = ground (arith, h)

send-IsDrained : (m : ByteBuffer) (s : SessionState) → IsDrained s → IsDrained (send m s)
unfolding send
send-IsDrained m s h = elim (Bool-cases s.connected) [
  | inl e ↦ ground (arith, h, e, enqueue_drained (encode_frame m) s h e)
  | inr e ↦ ground (arith, h, e)
]

on_write-IsDrained : (i : ℕ) (s : SessionState) → IsDrained s → IsDrained (on_write i s)
unfolding on_write
on_write-IsDrained i s h = ground (arith, h)

process_messages-IsDrained :
    (o : Option (List ByteBuffer × ByteBuffer)) (s : SessionState)
    → IsDrained s
    → IsDrained (process_messages o s).0
unfolding process_messages
process_messages-IsDrained none s h = h
process_messages-IsDrained (some (ms, r)) s h = do_read-IsDrained (record s { read_buffer = r }) h

input-IsDrained :
    (input : Input) (s : SessionState) → IsDrained s → IsDrained (handle_input input s).0
unfolding handle_input on_read on_read_error on_write_error
input-IsDrained (sent m) s h = send-IsDrained m s h
input-IsDrained (received more) s h =
    process_messages-IsDrained (extract_frames (s.read_buffer ++ more))
      (record s { reading = false }) h
input-IsDrained read_failed s h = do_disconnect-IsDrained (record s { reading = false }) h
input-IsDrained disconnect_called s h = do_disconnect-IsDrained s h
input-IsDrained (written i) s h = on_write-IsDrained i s h
input-IsDrained (write_failed i) s h =
    do_disconnect-IsDrained (record s { in_flight = without i s.in_flight }) h

start-IsDrained : (sid : ℕ) → IsDrained (start sid).0
unfolding start do_read
start-IsDrained sid = (refl, refl)

Run-IsDrained :
    (sid : ℕ) (inputs : List Input) (events : List SessionEvent) (s : SessionState)
    → Run sid inputs events s
    → IsDrained s
Run-IsDrained sid _ _ _ started = start-IsDrained sid
Run-IsDrained sid _ _ _ (then_handles inputs events s input run possible) =
    input-IsDrained input s (Run-IsDrained sid inputs events s run)

-- In a connected session, whatever happened before, a message of a size that the codec takes is never queued: its
-- frame starts to be written at once, behind the writes that are pending, also when there are some.
pub Run-send :
    (sid : ℕ) (inputs : List Input) (events : List SessionEvent) (s : SessionState) (m : ByteBuffer)
    → Run sid inputs events s
    → s.connected ≡ true
    → IsSmall m
    → (s.write_queue ≡ [])
      × (send m s ≡ record s { write_queue = []; in_flight = s.in_flight ++ (encode_frame m ∷ []) })
unfolding send
Run-send sid inputs events s m run e small =
    let h = Run-IsDrained sid inputs events s run in
    let sends = enqueue_drained (encode_frame m) s h e in
    (h.0, ground (arith, e, encode_frame-nil m small, sends))
