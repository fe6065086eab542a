-- ===== src/Net/Session/Leaving.antt =====
-- When a session says that its client is gone.
use dungeon_crawler.Base.{
  if◌then◌else◌, Bool-cases, ℕ, suc, ◌+◌, ◌≡◌, refl, ap, ◌∙◌, inl, inr, Bool, true, false, Option,
  none, some, List, [], ◌∷◌, ◌++◌, map, arith,
}
use dungeon_crawler.Frame.{ByteBuffer, encode_frame, extract_frames}
use dungeon_crawler.Net.Session.{
  SessionEvent, raw_message_received, client_disconnected, SessionState, Outcome, do_read, start,
  write_first, do_write, enqueue, send, do_disconnect, process_messages, on_read, on_read_error,
  without, on_write, on_write_error, Input, sent, received, read_failed, disconnect_called, written,
  write_failed, handle_input, Run, started, then_handles,
}

abbrev pub departures : List SessionEvent → ℕ
departures [] = 0
departures (client_disconnected sid ∷ events) = suc (departures events)
departures (_ ∷ events) = departures events

departures-append : (a b : List SessionEvent) → departures (a ++ b) ≡ departures a + departures b
departures-append [] b = omega arith
departures-append (client_disconnected sid ∷ a) b = omega (arith, departures-append a b)
departures-append (_ ∷ a) b = departures-append a b

-- How many there are to be: none while the session is connected, one afterwards.
abbrev pub owed : Bool → ℕ
owed true = 0
owed false = 1

departures-messages :
    (sid : ℕ) (ms : List ByteBuffer) → departures (map (raw_message_received sid) ms) ≡ 0
departures-messages sid [] = refl
departures-messages sid (m ∷ ms) = departures-messages sid ms

-- What a handler publishes settles what the change of state owes.
abbrev Settles : SessionState → Outcome → Type 0
Settles s o = owed s.connected + departures o.1 ≡ owed o.0.connected

do_disconnect-Settles : (s : SessionState) → Settles s (do_disconnect s)
unfolding do_disconnect
do_disconnect-Settles s = elim (Bool-cases s.connected) [ inl e ↦ rw e refl | inr e ↦ rw e refl ]

do_read-connected : (s : SessionState) → (do_read s).connected ≡ s.connected
unfolding do_read
do_read-connected s = ground arith

write_first-connected :
    (q : List ByteBuffer) (s : SessionState) → (write_first q s).connected ≡ s.connected
unfolding write_first
write_first-connected [] s = refl
write_first-connected (m ∷ q) s = refl

do_write-connected : (s : SessionState) → (do_write s).connected ≡ s.connected
unfolding do_write
do_write-connected s = ground (arith, write_first-connected s.write_queue s)

send-connected : (m : ByteBuffer) (s : SessionState) → (send m s).connected ≡ s.connected
unfolding send enqueue
send-connected m s =
    ground (
      arith,
      do_write-connected (record s { write_queue = s.write_queue ++ (encode_frame m ∷ []) }),
    )

on_write-connected : (i : ℕ) (s : SessionState) → (on_write i s).connected ≡ s.connected
unfolding on_write
on_write-connected i s =
    ground (arith, do_write-connected (record s { in_flight = without i s.in_flight }))

process_messages-Settles :
    (o : Option (List ByteBuffer × ByteBuffer)) (s : SessionState)
    → Settles s (process_messages o s)
unfolding process_messages
process_messages-Settles none s = omega arith
process_messages-Settles (some (ms, r)) s = omega (
  arith,
  departures-messages s.session_id ms,
  ap owed (do_read-connected (record s { read_buffer = r })),
)

input-Settles : (input : Input) (s : SessionState) → Settles s (handle_input input s)
unfolding handle_input on_read on_read_error on_write_error
input-Settles (sent m) s = omega (arith, ap owed (send-connected m s))
input-Settles (received more) s =
    process_messages-Settles (extract_frames (s.read_buffer ++ more)) (record s { reading = false })
input-Settles read_failed s = do_disconnect-Settles (record s { reading = false })
input-Settles disconnect_called s = do_disconnect-Settles s
input-Settles (written i) s = omega (arith, ap owed (on_write-connected i s))
input-Settles (write_failed i) s =
    do_disconnect-Settles (record s { in_flight = without i s.in_flight })

run_start : (sid : ℕ) → departures (start sid).1 ≡ owed (start sid).0.connected
unfolding start do_read
run_start sid = refl

-- However a session runs, it says exactly once that its client is gone if it is disconnected, and never while it is
-- connected, however many operations fail and however often it is closed.
pub Run-departures :
    (sid : ℕ) (inputs : List Input) (events : List SessionEvent) (s : SessionState)
    → Run sid inputs events s
    → departures events ≡ (if s.connected then 0 else 1)
Run-departures sid inputs events s run = settled sid inputs events s run ∙ ground arith
  where
    settled :
        (sid : ℕ) (inputs : List Input) (events : List SessionEvent) (s : SessionState)
        → Run sid inputs events s
        → departures events ≡ owed s.connected
    settled sid _ _ _ started = run_start sid
    settled sid _ _ _ (then_handles inputs events s input run possible) = omega (
      arith,
      departures-append events (handle_input input s).1,
      settled sid inputs events s run,
      input-Settles input s,
    )
