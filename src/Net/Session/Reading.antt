-- ===== src/Net/Session/Reading.antt =====
-- What a session reads is what it publishes.
use dungeon_crawler.Base.{
  ℕ, ◌≡◌, refl, sym, ap, ◌∙◌, false, some, List, [], ◌∷◌, ◌++◌, map, append-nil, append_assoc,
  arith,
}
use dungeon_crawler.Frame.{ByteBuffer, encode_frame, extract_frames}
use dungeon_crawler.Frame.Refine.{extract_frames_total, extract_frames-append}
use dungeon_crawler.Net.Session.{
  SessionEvent, raw_message_received, SessionState, Outcome, do_read, start, write_first, do_write,
  enqueue, send, do_disconnect, process_messages, on_read, on_read_error, without, on_write,
  on_write_error, Input, sent, received, read_failed, disconnect_called, written, write_failed,
  handle_input, Run, started, then_handles,
}

-- The bytes that were received, and the payloads that were published
abbrev pub bytes_of : List Input → ByteBuffer
bytes_of [] = []
bytes_of (received bytes ∷ inputs) = bytes ++ bytes_of inputs
bytes_of (_ ∷ inputs) = bytes_of inputs

abbrev pub payloads_of : List SessionEvent → List ByteBuffer
payloads_of [] = []
payloads_of (raw_message_received sid payload ∷ events) = payload ∷ payloads_of events
payloads_of (_ ∷ events) = payloads_of events

bytes_of-append : (a b : List Input) → bytes_of (a ++ b) ≡ bytes_of a ++ bytes_of b
bytes_of-append [] b = refl
bytes_of-append (received bytes ∷ a) b =
    ap (◌++◌ bytes) (bytes_of-append a b) ∙ sym (append_assoc bytes (bytes_of a) (bytes_of b))
bytes_of-append (_ ∷ a) b = bytes_of-append a b

payloads_of-append :
    (a b : List SessionEvent) → payloads_of (a ++ b) ≡ payloads_of a ++ payloads_of b
payloads_of-append [] b = refl
payloads_of-append (raw_message_received sid p ∷ a) b = ap (◌∷◌ p) (payloads_of-append a b)
payloads_of-append (_ ∷ a) b = payloads_of-append a b

payloads_of-map :
    (sid : ℕ) (ms : List ByteBuffer) → payloads_of (map (raw_message_received sid) ms) ≡ ms
payloads_of-map sid [] = refl
payloads_of-map sid (m ∷ ms) = ap (◌∷◌ m) (payloads_of-map sid ms)

-- The codec's result on the bytes that came, which a session keeps
abbrev Reads : ByteBuffer → List SessionEvent → SessionState → Type 0
Reads bytes events s = extract_frames bytes ≡ some (payloads_of events, s.read_buffer)

do_read-read_buffer : (s : SessionState) → (do_read s).read_buffer ≡ s.read_buffer
unfolding do_read
do_read-read_buffer s = ground arith

write_first-read_buffer :
    (q : List ByteBuffer) (s : SessionState) → (write_first q s).read_buffer ≡ s.read_buffer
unfolding write_first
write_first-read_buffer [] s = refl
write_first-read_buffer (m ∷ q) s = refl

do_write-read_buffer : (s : SessionState) → (do_write s).read_buffer ≡ s.read_buffer
unfolding do_write
do_write-read_buffer s = ground (arith, write_first-read_buffer s.write_queue s)

send-read_buffer : (m : ByteBuffer) (s : SessionState) → (send m s).read_buffer ≡ s.read_buffer
unfolding send enqueue
send-read_buffer m s =
    let queued : SessionState = record s { write_queue = s.write_queue ++ (encode_frame m ∷ []) } in
    ground (arith, do_write-read_buffer queued)

on_write-read_buffer : (i : ℕ) (s : SessionState) → (on_write i s).read_buffer ≡ s.read_buffer
unfolding on_write
on_write-read_buffer i s =
    let done : SessionState = record s { in_flight = without i s.in_flight } in
    ground (arith, do_write-read_buffer done)

do_disconnect-read_buffer :
    (s : SessionState)
    → ((do_disconnect s).0.read_buffer ≡ s.read_buffer) × (payloads_of (do_disconnect s).1 ≡ [])
unfolding do_disconnect
do_disconnect-read_buffer s = ground arith

-- A handler that receives nothing publishes no payload.
abbrev Keeps : Outcome → SessionState → Type 0
Keeps o s = (o.0.read_buffer ≡ s.read_buffer) × (payloads_of o.1 ≡ [])

keep-Reads :
    (bytes : ByteBuffer) (events : List SessionEvent) (s : SessionState) (o : Outcome)
    → Reads bytes events s
    → Keeps o s
    → Reads (bytes ++ []) (events ++ o.1) o.0
keep-Reads bytes events s o h k =
    ap extract_frames (append-nil bytes)
    ∙ h
    ∙ cc (k.0, k.1, payloads_of-append events o.1, append-nil (payloads_of events))

on_read-Reads :
    (all more : ByteBuffer) (events : List SessionEvent) (s : SessionState) (ms : List ByteBuffer)
    (r : ByteBuffer)
    → extract_frames all ≡ some (payloads_of events ++ ms, r)
    → extract_frames (s.read_buffer ++ more) ≡ some (ms, r)
    → Reads all (events ++ (on_read more s).1) (on_read more s).0
unfolding on_read process_messages
on_read-Reads all more events s ms r whole e = rw e (
    rw (do_read-read_buffer (record s { reading = false; read_buffer = r })) (
      rw (payloads_of-append events (map (raw_message_received s.session_id) ms))
        (rw (payloads_of-map s.session_id ms) whole)))

process_messages-Reads :
    (all more : ByteBuffer) (events : List SessionEvent) (s : SessionState)
    → Reads all events s
    → Reads (all ++ more) (events ++ (on_read more s).1) (on_read more s).0
process_messages-Reads all more events s h =
    let (ms, r, e) = extract_frames_total (s.read_buffer ++ more) in
    let both = extract_frames-append all more (payloads_of events) ms s.read_buffer r h e in
    on_read-Reads (all ++ more) more events s ms r both e

input-Reads :
    (bytes : ByteBuffer) (events : List SessionEvent) (s : SessionState) (input : Input)
    → Reads bytes events s
    → Reads
        (bytes ++ bytes_of (input ∷ []))
        (events ++ (handle_input input s).1)
        (handle_input input s).0
unfolding handle_input on_read_error on_write_error
input-Reads bytes events s (sent m) h =
    keep-Reads bytes events s (send m s, []) h (send-read_buffer m s, refl)
input-Reads bytes events s (received more) h =
    rw (append-nil more) (process_messages-Reads bytes more events s h)
input-Reads bytes events s read_failed h =
    keep-Reads bytes events s (do_disconnect (record s { reading = false })) h
      (do_disconnect-read_buffer (record s { reading = false }))
input-Reads bytes events s disconnect_called h =
    keep-Reads bytes events s (do_disconnect s) h (do_disconnect-read_buffer s)
input-Reads bytes events s (written i) h =
    keep-Reads bytes events s (on_write i s, []) h (on_write-read_buffer i s, refl)
input-Reads bytes events s (write_failed i) h =
    keep-Reads bytes events s (do_disconnect (record s { in_flight = without i s.in_flight })) h
      (do_disconnect-read_buffer (record s { in_flight = without i s.in_flight }))

run_start :
    (sid : ℕ) → extract_frames [] ≡ some (payloads_of (start sid).1, (start sid).0.read_buffer)
unfolding extract_frames start do_read
run_start sid = refl

-- However the reads of a session are cut, and whatever is sent, fails or is closed between them: the payloads that
-- it has published are those that the codec finds in the bytes that it has received, taken together and in their
-- order, and its buffer holds what the codec leaves.
pub Run-payloads :
    (sid : ℕ) (inputs : List Input) (events : List SessionEvent) (s : SessionState)
    → Run sid inputs events s
    → extract_frames (bytes_of inputs) ≡ some (payloads_of events, s.read_buffer)
Run-payloads sid _ _ _ started = run_start sid
Run-payloads sid _ _ _ (then_handles inputs events s input run possible) =
    ap extract_frames (bytes_of-append inputs (input ∷ []))
    ∙ input-Reads (bytes_of inputs) events s input (Run-payloads sid inputs events s run)
