-- ===== src/Net/Client/Writes.antt =====
-- What sending a message and the end of a write do to the order of a client.
use dungeon_crawler.Base.{
  if◌then◌else◌, Bool-cases, is_nil, length, length-append, ◌+◌, ◌-◌, ◌≤◌, ◌<◌, ◌≡◌, refl, inl, inr,
  true, false, not, ◌||◌, List, [], ◌∷◌, ◌++◌, arith, dec_le,
}
use dungeon_crawler.Frame.{ByteBuffer, encode_frame}
use dungeon_crawler.Net.Client.{
  ClientState, max_queue_size, is_connected, begin_write, write_next, queue_message, send_message,
  on_written,
}
use dungeon_crawler.Net.Client.Orderly.{IsOrderly, quiet-IsOrderly, either-IsOrderly}

-- The client that writes this message
abbrev pub busy : ByteBuffer → List ByteBuffer → ClientState → ClientState
busy m queue s = record s {
  writing = true;
  current_write_message = m;
  write_queue = queue;
  writes = s.writes + 1;
}

pub begin_write_ready :
    (m : ByteBuffer) (queue : List ByteBuffer) (s : ClientState)
    → s.writing ≡ false
    → is_connected s ≡ true
    → begin_write (m ∷ queue) s ≡ busy m queue s
unfolding begin_write
begin_write_ready m queue s quiet e = ground (arith, quiet, e)

busy-IsOrderly :
    (m : ByteBuffer) (queue : List ByteBuffer) (s : ClientState)
    → is_connected s ≡ true
    → length queue ≤ max_queue_size
    → IsOrderly (busy m queue s)
unfolding is_connected
busy-IsOrderly m queue s e bound = record {
  write_known = λ k. omega arith;
  waits = λ k. absurd (cc k);
  offline = λ k. absurd (cc (k, e));
  bounded = bound;
}

-- A client whose last write is over, with messages that wait for the next one only while it is connected
pub begin_write-IsOrderly :
    (queue : List ByteBuffer) (s : ClientState)
    → s.writing ≡ false
    → s.write_queue ≡ queue
    → (is_connected s ≡ false → queue ≡ [])
    → length queue ≤ max_queue_size
    → IsOrderly (begin_write queue s)
unfolding begin_write
begin_write-IsOrderly [] s quiet same off bound = quiet-IsOrderly s quiet same
begin_write-IsOrderly (m ∷ queue) s quiet same off bound = elim (Bool-cases (is_connected s)) [
  | inl e ↦
      rw (begin_write_ready m queue s quiet e) (busy-IsOrderly m queue s e (omega (arith, bound)))
  | inr e ↦ absurd (ground (arith, off e))
]

write_next-nil :
    (queue : List ByteBuffer) (s : ClientState)
    → (if not (is_nil queue) then begin_write queue s else s) ≡ begin_write queue s
unfolding begin_write
write_next-nil [] s = refl
write_next-nil (m ∷ queue) s = refl

-- After a write, the next one begins if there is one.
pub on_written_lem :
    (s : ClientState)
    → on_written s ≡ begin_write s.write_queue (record s { writing = false; writes = s.writes - 1 })
unfolding on_written write_next
on_written_lem s =
    write_next-nil s.write_queue (record s { writing = false; writes = s.writes - 1 })

pub on_written-IsOrderly : (s : ClientState) → IsOrderly s → IsOrderly (on_written s)
unfolding is_connected
on_written-IsOrderly s h = rw (on_written_lem s) (
    begin_write-IsOrderly s.write_queue (record s { writing = false; writes = s.writes - 1 }) refl
      refl (λ k. h.waits (h.offline k)) h.bounded)

-- The client with one more message that waits
abbrev pub waiting : ByteBuffer → ClientState → ClientState
waiting m s = record s { write_queue = s.write_queue ++ (m ∷ []) }

waiting-IsOrderly :
    (m : ByteBuffer) (s : ClientState)
    → is_connected s ≡ true
    → s.writing ≡ true
    → length s.write_queue < max_queue_size
    → IsOrderly s
    → IsOrderly (waiting m s)
unfolding is_connected
waiting-IsOrderly m s e busy_now room h = record {
  write_known = h.write_known;
  waits = λ k. absurd (cc (k, busy_now));
  offline = λ k. absurd (cc (k, e));
  bounded = omega (arith, room, length-append s.write_queue (m ∷ []));
}

-- The three outcomes of a message that is sent: the queue is full, a write is pending, or it is written at once.
pub queue_message_full :
    (m : ByteBuffer) (s : ClientState)
    → max_queue_size ≤ length s.write_queue
    → queue_message m s ≡ s
unfolding queue_message
queue_message_full m s full = ground (arith, full)

pub queue_message_waits :
    (m : ByteBuffer) (s : ClientState)
    → length s.write_queue < max_queue_size
    → s.writing ≡ true
    → queue_message m s ≡ waiting m s
unfolding queue_message
queue_message_waits m s room e = ground (arith, room, e)

pub queue_message_begins :
    (m : ByteBuffer) (s : ClientState)
    → IsOrderly s
    → is_connected s ≡ true
    → s.writing ≡ false
    → queue_message m s ≡ busy m [] s
unfolding queue_message write_next is_connected
queue_message_begins m s h c e =
    ground (arith, h.waits e, e, begin_write_ready m [] (waiting m s) e c)

pub queue_message-IsOrderly :
    (m : ByteBuffer) (s : ClientState)
    → is_connected s ≡ true
    → IsOrderly s
    → IsOrderly (queue_message m s)
queue_message-IsOrderly m s c h = elim (dec_le max_queue_size (length s.write_queue)) [
  | yes full ↦ rw (queue_message_full m s full) h
  | no some_room ↦ elim (Bool-cases s.writing) [
    | inl e ↦
        rw (queue_message_waits m s (omega arith) e) (waiting-IsOrderly m s c e (omega arith) h)
    | inr e ↦ rw (queue_message_begins m s h c e) (busy-IsOrderly m [] s c (omega arith))
  ]
]

pub send_message-IsOrderly :
    (m : ByteBuffer) (s : ClientState) → IsOrderly s → IsOrderly (send_message m s)
unfolding send_message
send_message-IsOrderly m s h = elim (Bool-cases (is_connected s)) [
  | inl c ↦
      either-IsOrderly (not (is_connected s) || not s.is_open) s
        (if is_nil (encode_frame m) then s else queue_message (encode_frame m) s) h
        (either-IsOrderly (is_nil (encode_frame m)) s (queue_message (encode_frame m) s) h
          (queue_message-IsOrderly (encode_frame m) s c h))
  | inr c ↦ rw c h
]
