-- ===== src/Frame/Refine.antt =====
-- `extractFrames` computes what the reference decoder does.
use dungeon_crawler.Base.{
  ℕ, zero, suc, ◌+◌, ◌≤◌, ◌<◌, ◌≡◌, refl, sym, ap, ◌∙◌, inl, inr, Option, some, List, [], ◌∷◌, ◌++◌,
  append-nil, append_assoc, arith, dec_lt, length, drop, length-drop, drop-drop,
}
use dungeon_crawler.Frame.{
  ByteBuffer, skip, wait, frame, examine, Scan, scan, bytes_to_consume, extract_frames,
}
use dungeon_crawler.Frame.Reader.{decode, examine-drop, examine_bounds, Verdict-cases}
use dungeon_crawler.Frame.Stream.{
  push_message-some, decode_stop, decode_skip, decode_wait, decode_frame, decode_total, decode_mono,
  decode-append,
}

-- What the loop has done when it ends: the payloads are appended, and the bytes that will be consumed are all but `rest`.
abbrev Done : ByteBuffer → Scan → List ByteBuffer → ByteBuffer → Scan → Type 0
Done bytes s ms rest t =
    (t.messages ≡ s.messages ++ ms) × (drop (bytes_to_consume (length bytes) t) bytes ≡ rest)

scan_stop :
    (f : ℕ) (bytes : ByteBuffer) (s : Scan)
    → length bytes < s.offset + 4
    → scan (suc f) bytes s ≡ some s
unfolding scan
scan_stop f bytes s h = ground arith

scan_skip :
    (f : ℕ) (bytes : ByteBuffer) (s : Scan)
    → s.offset + 4 ≤ length bytes
    → examine bytes s.offset ≡ skip
    → scan (suc f) bytes s ≡ scan f bytes (record s { offset = s.offset + 1 })
unfolding scan
scan_skip f bytes s h e = ground arith

scan_wait :
    (f : ℕ) (bytes : ByteBuffer) (s : Scan)
    → s.offset + 4 ≤ length bytes
    → examine bytes s.offset ≡ wait
    → scan (suc f) bytes s ≡ some (record s { first_incomplete_magic_offset = s.offset })
unfolding scan
scan_wait f bytes s h e = ground arith

scan_frame :
    (f : ℕ) (bytes : ByteBuffer) (s : Scan) (p : ByteBuffer) (n : ℕ)
    → s.offset + 4 ≤ length bytes
    → examine bytes s.offset ≡ frame p n
    → scan (suc f) bytes s
      ≡ scan f bytes (record s { messages = s.messages ++ (p ∷ []); offset = s.offset + n })
unfolding scan
scan_frame f bytes s p n h e = ground arith

pub same_result :
    (o : Option (List ByteBuffer × ByteBuffer)) {ms ns : List ByteBuffer} {r t : ByteBuffer}
    → o ≡ some (ms, r)
    → o ≡ some (ns, t)
    → (ms ≡ ns) × (r ≡ t)
same_result o p q = (ground arith, ground arith)

-- Where the loop ends without a payload, it leaves everything from the offset on.
end-Done :
    (bytes : ByteBuffer) (s t : Scan) (o : Option (List ByteBuffer × ByteBuffer))
    (ms : List ByteBuffer) (rest : ByteBuffer)
    → o ≡ some ([], drop s.offset bytes)
    → o ≡ some (ms, rest)
    → t.messages ≡ s.messages
    → bytes_to_consume (length bytes) t ≡ s.offset
    → Done bytes s ms rest t
end-Done bytes s t o ms rest p q e c =
    let (none_more, left) = same_result o p q in
    (
      e ∙ sym (append-nil s.messages) ∙ ap (◌++◌ s.messages) none_more,
      ap (λ k. drop k bytes) c ∙ left,
    )

scan-decode :
    (f : ℕ) (bytes : ByteBuffer) (s : Scan) (ms : List ByteBuffer) (rest : ByteBuffer)
    → s.offset ≤ length bytes
    → s.first_incomplete_magic_offset ≡ length bytes
    → decode 4 f (drop s.offset bytes) ≡ some (ms, rest)
    → (t : Scan) × (scan f bytes s ≡ some t) × Done bytes s ms rest t
unfolding decode bytes_to_consume
scan-decode zero bytes s ms rest b i e = absurd (cc e)
scan-decode (suc f) bytes s ms rest b i e =
    let left = length-drop s.offset bytes in
    elim (dec_lt (length bytes) (s.offset + 4)) [
      | yes short ↦ (
        s,
        scan_stop f bytes s short,
        end-Done bytes s s _ ms rest (decode_stop 4 f _ (omega arith)) e refl (ground arith),
      )
      | no long ↦ elim (Verdict-cases (examine bytes s.offset)) [
        | inl v ↦
            let (t, run, done) =
              scan-decode f bytes (record s { offset = s.offset + 1 }) ms rest (omega arith) i
                (ap (decode 4 f) (sym (drop-drop 1 s.offset bytes))
                  ∙ sym (decode_skip 4 f _ (omega arith) (examine-drop s.offset bytes b ∙ v))
                  ∙ e) in
            (t, scan_skip f bytes s (omega arith) v ∙ run, done)
        | inr (inl v) ↦ (
          record s { first_incomplete_magic_offset = s.offset },
          scan_wait f bytes s (omega arith) v,
          end-Done bytes s (record s { first_incomplete_magic_offset = s.offset }) _ ms rest
              (decode_wait 4 f _ (omega arith) (examine-drop s.offset bytes b ∙ v)) e refl
              (ground arith),
        )
        | inr (inr (p, n, v)) ↦
            let v' = examine-drop s.offset bytes b ∙ v in
            let (ms', q, u) =
              push_message-some p _ (sym (decode_frame 4 f _ p n (omega arith) v') ∙ e) in
            let (t, run, done) =
              scan-decode f bytes
                (record s { messages = s.messages ++ (p ∷ []); offset = s.offset + n }) ms' rest
                (omega (arith, examine_bounds (drop s.offset bytes) p n v')) i
                (ap (decode 4 f) (sym (drop-drop n s.offset bytes)) ∙ q) in
            (
              t,
              scan_frame f bytes s p n (omega arith) v ∙ run,
              (
                done.0 ∙ append_assoc s.messages (p ∷ []) ms' ∙ ap (◌++◌ s.messages) (sym u),
                done.1,
              ),
            )
      ]
    ]

-- `extractFrames`, with its offsets and its consumption of the buffer, gives for every buffer
-- what the reference decoder gives, which only ever looks at the head of what is left.
pub extract_frames-decode :
    (buffer : ByteBuffer) → extract_frames buffer ≡ decode 4 (suc (length buffer)) buffer
unfolding extract_frames
extract_frames-decode buffer = elim (dec_lt (length buffer) 4) [
  | yes short ↦ ground (arith, decode_stop 4 (length buffer) buffer short)
  | no long ↦
      let (ms, r, e) = decode_total 4 (suc (length buffer)) buffer (omega arith) (omega arith) in
      let (t, run, done) =
        scan-decode (suc (length buffer)) buffer
          (record { messages = []; offset = 0; first_incomplete_magic_offset = length buffer }) ms r
          (omega arith) refl e in
      ground (arith, run, done, e)
]

-- For every buffer the fuel suffices: the loop ends, and gives payloads and the rest of the
-- buffer.
pub extract_frames_total :
    (buffer : ByteBuffer)
    → (ms : List ByteBuffer) × (r : ByteBuffer) × (extract_frames buffer ≡ some (ms, r))
extract_frames_total buffer =
    let (ms, r, e) = decode_total 4 (suc (length buffer)) buffer (omega arith) (omega arith) in
    (ms, r, extract_frames-decode buffer ∙ e)

-- A buffer that is filled in two steps yields the payloads that it yields when it is filled at once,
-- in the same order, and ends with the same bytes.
pub extract_frames-append :
    (d e : ByteBuffer) (ms ns : List ByteBuffer) (r s : ByteBuffer)
    → extract_frames d ≡ some (ms, r)
    → extract_frames (r ++ e) ≡ some (ns, s)
    → extract_frames (d ++ e) ≡ some (ms ++ ns, s)
extract_frames-append d e ms ns r s p q =
    let f = suc (length d) in
    let g = suc (length (r ++ e)) in
    let whole : decode 4 (f + g) (d ++ e) ≡ some (ms ++ ns, s) =
      decode-append f g (f + g) d e ms ns r s (omega arith) (sym (extract_frames-decode d) ∙ p)
        (sym (extract_frames-decode (r ++ e)) ∙ q) in
    let (ms', s', t) = extract_frames_total (d ++ e) in
    let more =
      decode_mono 4 (suc (length (d ++ e))) (suc (length (d ++ e)) + (f + g)) (d ++ e) (ms', s')
        (omega arith) (sym (extract_frames-decode (d ++ e)) ∙ t) in
    let less =
      decode_mono 4 (f + g) (suc (length (d ++ e)) + (f + g)) (d ++ e) (ms ++ ns, s) (omega arith)
        whole in
    t ∙ sym more ∙ less
