-- ===== src/Net/Client/Outbox.antt =====
-- The client sends its messages in their order, each one once.
use dungeon_crawler.Base.{
  ltb, leb, if◌then◌else◌, Bool-cases, is_nil, length, drop, ℕ, zero, suc, ◌-◌, ◌≤◌, ◌<◌, ◌≡◌, refl,
  sym, ap, ◌∙◌, inl, inr, Bool, true, false, not, ◌&&◌, List, [], ◌∷◌, ◌++◌, arith, dec_le,
}
use dungeon_crawler.Frame.{ByteBuffer, max_message_size, store_u32, encode_frame}
use dungeon_crawler.Net.Client.{
  ClientState, max_queue_size, is_connected, begin_write, queue_message, send_message, on_written,
  message_written, handle_client, Reached, then_happens,
}
use dungeon_crawler.Net.Client.Invariant.{Reached-IsOrderly}
use dungeon_crawler.Net.Client.Orderly.{IsOrderly}
use dungeon_crawler.Net.Client.Writes.{
  begin_write_ready, on_written_lem, queue_message_full, queue_message_waits, queue_message_begins,
}

-- The frames that are not written to their end: the one that is being written, and those that wait.
abbrev pub current : Bool → ByteBuffer → List ByteBuffer
current true m = m ∷ []
current false m = []

abbrev pub outbox : ClientState → List ByteBuffer
outbox s = current s.writing s.current_write_message ++ s.write_queue

encode_frame-is_nil :
    (m : ByteBuffer) → is_nil (encode_frame m) ≡ not (leb (length m) max_message_size)
unfolding encode_frame store_u32
encode_frame-is_nil m = ground arith

queue_message-outbox :
    (m : ByteBuffer) (s : ClientState)
    → IsOrderly s
    → is_connected s ≡ true
    → outbox (queue_message m s)
      ≡ (if ltb (length s.write_queue) max_queue_size then outbox s ++ (m ∷ []) else outbox s)
queue_message-outbox m s h c = elim (dec_le max_queue_size (length s.write_queue)) [
  | yes full ↦ ground (arith, full, queue_message_full m s full)
  | no free ↦ elim (Bool-cases s.writing) [
    | inl e ↦ ground (arith, free, e, queue_message_waits m s (omega arith) e)
    | inr e ↦ ground (arith, free, e, h.waits e, queue_message_begins m s h c e)
  ]
]

-- Whatever happened before: a message that is sent joins the messages that are not written yet, as their last one, exactly
-- if the client is connected, its socket is open, the codec takes a message of that size, and fewer than 1000
-- messages wait. Otherwise these messages stay as they are.
pub send_message_lem :
    (b : Bool) (s : ClientState) (m : ByteBuffer)
    → Reached b s
    → outbox (send_message m s) ≡ (
        if is_connected s
          && (s.is_open
              && (leb (length m) max_message_size && ltb (length s.write_queue) max_queue_size))
        then outbox s ++ (encode_frame m ∷ [])
        else outbox s)
unfolding send_message
send_message_lem b s m run =
    let big = encode_frame-is_nil m in
    elim (Bool-cases (is_connected s)) [
      | inr c ↦ ground (arith, c)
      | inl c ↦
          ground
            (arith, c, big, queue_message-outbox (encode_frame m) s (Reached-IsOrderly b s run) c)
    ]

begin_write-outbox :
    (queue : List ByteBuffer) (s : ClientState)
    → s.writing ≡ false
    → s.write_queue ≡ queue
    → is_connected s ≡ true
    → outbox (begin_write queue s) ≡ queue
unfolding begin_write
begin_write-outbox [] s e q c = ground (arith, e, q, c)
begin_write-outbox (m ∷ queue) s e q c = ap outbox (begin_write_ready m queue s e c)

-- The client after this many writes have come to their end without an error
abbrev pub after_writes : ℕ → ClientState → ClientState
after_writes zero s = s
after_writes (suc n) s = after_writes n (on_written s)

is_connected-begin_write :
    (queue : List ByteBuffer) (s : ClientState)
    → is_connected (begin_write queue s) ≡ is_connected s
unfolding begin_write is_connected
is_connected-begin_write [] s = refl
is_connected-begin_write (m ∷ queue) s = ground arith

-- One write that has come to its end
on_written-outbox :
    (s : ClientState)
    → is_connected s ≡ true
    → (is_connected (on_written s) ≡ true) × (outbox (on_written s) ≡ s.write_queue)
unfolding is_connected
on_written-outbox s c =
    let done : ClientState = record s { writing = false; writes = s.writes - 1 } in
    (
      ap is_connected (on_written_lem s) ∙ is_connected-begin_write s.write_queue done ∙ c,
      ap outbox (on_written_lem s) ∙ begin_write-outbox s.write_queue done refl refl c,
    )

begin_write-writes :
    (queue : List ByteBuffer) (s : ClientState) → s.writes ≡ 0 → (begin_write queue s).writes ≤ 1
unfolding begin_write
begin_write-writes [] s idle = omega (arith, idle)
begin_write-writes (m ∷ queue) s idle = ground (arith, idle)

on_written-writes : (s : ClientState) → s.writes ≤ 1 → (on_written s).writes ≤ 1
on_written-writes s one = rw (on_written_lem s) (
    begin_write-writes s.write_queue (record s { writing = false; writes = s.writes - 1 })
      (omega (arith, one)))

outbox-writing : (s : ClientState) → IsOrderly s → 0 < length (outbox s) → s.writing ≡ true
outbox-writing s h l = elim (Bool-cases s.writing) [
  | inl e ↦ e
  | inr e ↦ absurd (ground (arith, e, h.waits e, l))
]

drop-outbox :
    (n : ℕ) (s : ClientState) → s.writing ≡ true → drop (suc n) (outbox s) ≡ drop n s.write_queue
drop-outbox n s e = ground (arith, e)

-- In a connected client that no write of an earlier connection is pending in (one write is pending at most): as long as it
-- has messages to write, exactly one write is pending, so that its handler will run; and after n successful writes
-- the first n messages are written, each one once and in their order. After as many as there are messages, none
-- is left.
pub after_writes_lem :
    (b : Bool) (n : ℕ) (s : ClientState)
    → Reached b s
    → is_connected s ≡ true
    → s.writes ≤ 1
    → n ≤ length (outbox s)
    → (outbox (after_writes n s) ≡ drop n (outbox s))
      × (0 < length (outbox (after_writes n s)) → (after_writes n s).writes ≡ 1)
unfolding handle_client
after_writes_lem b zero s run c one h =
    let orderly = Reached-IsOrderly b s run in
    (refl, λ l. omega (arith, one, orderly.write_known (outbox-writing s orderly l)))
after_writes_lem b (suc n) s run c one h =
    let orderly = Reached-IsOrderly b s run in
    let e = outbox-writing s orderly (omega (arith, h)) in
    let pending = orderly.write_known e in
    let (still, rest) = on_written-outbox s c in
    let size : length (outbox s) ≡ suc (length s.write_queue) = ground (arith, e) in
    let (left, busy_now) =
      after_writes_lem b n (on_written s) (then_happens s message_written run pending) still
        (on_written-writes s one) (omega (arith, h, size, ap length rest)) in
    (left ∙ ap (drop n) rest ∙ sym (drop-outbox n s e), busy_now)
