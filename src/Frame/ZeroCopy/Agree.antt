-- ===== src/Frame/ZeroCopy/Agree.antt =====
-- The codec without copies and the one that scans from offsets: same frames, same payloads.
use dungeon_crawler.Base.{
  ℕ, zero, suc, ◌+◌, ◌≤◌, ◌<◌, ◌≡◌, sym, ap, ◌∙◌, inl, inr, Option, none, some, List, [], ◌∷◌, ◌++◌,
  append-nil, append_assoc, arith, dec_lt, ltb, if◌then◌else◌, length, drop, length-drop, drop-drop,
}
use mathlib.Core.Option
use dungeon_crawler.Frame.{
  ByteBuffer, skip, wait, frame, examine, encode_frame, extract_frames, max_message_size,
}
use dungeon_crawler.Frame.Reader.{
  decode, examine_short, examine_bounds, Verdict-cases, examine-drop,
}
use dungeon_crawler.Frame.Stream.{
  push_message-some, decode_stop, decode_skip, decode_wait, decode_frame, decode_total,
}
use dungeon_crawler.Frame.Refine.{extract_frames-decode, same_result}
use dungeon_crawler.Frame.ZeroCopy.{encode, buffers, examine_header, ZcScan, scan_zc, decode_zc}

-- With a whole header at hand the two codecs come to the same verdict.
examine_header-examine :
    (o : ℕ) (d : ByteBuffer) → o + 8 ≤ length d → examine_header d o ≡ examine (drop o d) 0
unfolding examine_header examine
examine_header-examine o d h = ground (arith, examine-drop o d)

abbrev DoneZc : ByteBuffer → ZcScan → List ByteBuffer → ByteBuffer → ZcScan → Type 0
DoneZc d s ms r t =
    (t.handed ≡ s.handed ++ ms) × (t.count ≡ s.count + length ms) × (drop t.offset d ≡ r)

scan_zc_stop :
    (f : ℕ) (d : ByteBuffer) (s : ZcScan) → length d < s.offset + 8 → scan_zc (suc f) d s ≡ some s
unfolding scan_zc
scan_zc_stop f d s h = ground arith

scan_zc_skip :
    (f : ℕ) (d : ByteBuffer) (s : ZcScan)
    → s.offset + 8 ≤ length d
    → examine_header d s.offset ≡ skip
    → scan_zc (suc f) d s ≡ scan_zc f d (record s { offset = s.offset + 1 })
unfolding scan_zc
scan_zc_skip f d s h e = ground arith

scan_zc_wait :
    (f : ℕ) (d : ByteBuffer) (s : ZcScan)
    → s.offset + 8 ≤ length d
    → examine_header d s.offset ≡ wait
    → scan_zc (suc f) d s ≡ some s
unfolding scan_zc
scan_zc_wait f d s h e = ground arith

scan_zc_frame :
    (f : ℕ) (d : ByteBuffer) (s : ZcScan) (p : ByteBuffer) (n : ℕ)
    → s.offset + 8 ≤ length d
    → examine_header d s.offset ≡ frame p n
    → scan_zc (suc f) d s
      ≡ scan_zc f d
          (record { count = s.count + 1; offset = s.offset + n; handed = s.handed ++ (p ∷ []) })
unfolding scan_zc
scan_zc_frame f d s p n h e = ground arith

end-DoneZc :
    (d : ByteBuffer) (s : ZcScan) (o : Option (List ByteBuffer × ByteBuffer)) (ms : List ByteBuffer)
    (r : ByteBuffer)
    → o ≡ some ([], drop s.offset d)
    → o ≡ some (ms, r)
    → DoneZc d s ms r s
end-DoneZc d s o ms r p q =
    let (none_more, left) = same_result o p q in
    (
      sym (append-nil s.handed) ∙ ap (◌++◌ s.handed) none_more,
      omega (arith, ap length none_more),
      left,
    )

scan_zc-decode :
    (f : ℕ) (d : ByteBuffer) (s : ZcScan) (ms : List ByteBuffer) (r : ByteBuffer)
    → s.offset ≤ length d
    → decode 8 f (drop s.offset d) ≡ some (ms, r)
    → (t : ZcScan) × (scan_zc f d s ≡ some t) × DoneZc d s ms r t
unfolding decode
scan_zc-decode zero d s ms r b e = absurd (cc e)
scan_zc-decode (suc f) d s ms r b e =
    let left = length-drop s.offset d in
    elim (dec_lt (length d) (s.offset + 8)) [
      | yes short ↦
          (s, scan_zc_stop f d s short, end-DoneZc d s _ ms r (decode_stop 8 f _ (omega arith)) e)
      | no long ↦
          let same = examine_header-examine s.offset d (omega arith) in
          elim (Verdict-cases (examine_header d s.offset)) [
            | inl v ↦
                let (t, run, done) =
                  scan_zc-decode f d (record s { offset = s.offset + 1 }) ms r (omega arith)
                    (ap (decode 8 f) (sym (drop-drop 1 s.offset d))
                      ∙ sym (decode_skip 8 f _ (omega arith) (sym same ∙ v))
                      ∙ e) in
                (t, scan_zc_skip f d s (omega arith) v ∙ run, done)
            | inr (inl v) ↦ (
              s,
              scan_zc_wait f d s (omega arith) v,
              end-DoneZc d s _ ms r (decode_wait 8 f _ (omega arith) (sym same ∙ v)) e,
            )
            | inr (inr (p, n, v)) ↦
                let v' = sym same ∙ v in
                let (ms', q, u) =
                  push_message-some p _ (sym (decode_frame 8 f _ p n (omega arith) v') ∙ e) in
                let (t, run, done) =
                  scan_zc-decode f d
                    (record {
                      count = s.count + 1;
                      offset = s.offset + n;
                      handed = s.handed ++ (p ∷ []);
                    })
                    ms' r (omega (arith, examine_bounds (drop s.offset d) p n v'))
                    (ap (decode 8 f) (sym (drop-drop n s.offset d)) ∙ q) in
                (
                  t,
                  scan_zc_frame f d s p n (omega arith) v ∙ run,
                  (
                    done.0 ∙ append_assoc s.handed (p ∷ []) ms' ∙ ap (◌++◌ s.handed) (sym u),
                    omega (arith, done.1, ap length u),
                    done.2,
                  ),
                )
          ]
    ]

-- Fewer bytes than a header yield nothing.
short_none :
    (f : ℕ) (d : ByteBuffer) (ns : List ByteBuffer) (t : ByteBuffer)
    → length d < 8
    → decode 4 f d ≡ some (ns, t)
    → ns ≡ []
unfolding decode
short_none zero d ns t h e = absurd (cc e)
short_none (suc f) d ns t h e = elim (dec_lt (length d) 4) [
  | yes short ↦ (same_result _ e (decode_stop 4 f d short)).0
  | no long ↦ elim (Verdict-cases (examine d 0)) [
    | inl v ↦
        short_none f (drop 1 d) ns t (omega (arith, length-drop 1 d))
          (sym (decode_skip 4 f d (omega arith) v) ∙ e)
    | inr (inl v) ↦ (same_result _ e (decode_wait 4 f d (omega arith) v)).0
    | inr (inr (p, n, v)) ↦ absurd (examine_short d p n h v)
  ]
]

-- Asking for a whole header first changes no payload.
decode_need :
    (f g : ℕ) (d : ByteBuffer) (ms ns : List ByteBuffer) (r t : ByteBuffer)
    → decode 8 f d ≡ some (ms, r)
    → decode 4 g d ≡ some (ns, t)
    → ms ≡ ns
unfolding decode
decode_need zero g d ms ns r t p q = absurd (cc p)
decode_need (suc f) zero d ms ns r t p q = absurd (cc q)
decode_need (suc f) (suc g) d ms ns r t p q = elim (dec_lt (length d) 8) [
  | yes short ↦
      (same_result _ p (decode_stop 8 f d short)).0 ∙ sym (short_none (suc g) d ns t short q)
  | no long ↦ elim (Verdict-cases (examine d 0)) [
    | inl v ↦
        decode_need f g (drop 1 d) ms ns r t (sym (decode_skip 8 f d (omega arith) v) ∙ p)
          (sym (decode_skip 4 g d (omega arith) v) ∙ q)
    | inr (inl v) ↦
        (same_result _ p (decode_wait 8 f d (omega arith) v)).0
        ∙ (same_result _ (decode_wait 4 g d (omega arith) v) q).0
    | inr (inr (m, n, v)) ↦
        let (ms', p', u) =
          push_message-some m _ (sym (decode_frame 8 f d m n (omega arith) v) ∙ p) in
        let (ns', q', w) =
          push_message-some m _ (sym (decode_frame 4 g d m n (omega arith) v) ∙ q) in
        u ∙ ap (◌∷◌ m) (decode_need f g (drop n d) ms' ns' r t p' q') ∙ sym w
  ]
]

decode_zc-decode :
    (d : ByteBuffer) (ms : List ByteBuffer) (r : ByteBuffer)
    → decode 8 (suc (length d)) d ≡ some (ms, r)
    → decode_zc d ≡ some (record { result = length ms; handed = ms; left = r })
unfolding decode_zc
decode_zc-decode d ms r e = elim (dec_lt (length d) 8) [
  | yes short ↦
      let (none_read, left) = same_result _ (decode_stop 8 (length d) d short) e in
      ground (arith, none_read, left)
  | no long ↦
      let (t, run, done) =
        scan_zc-decode (suc (length d)) d (record { count = 0; offset = 0; handed = [] }) ms r
          (omega arith) e in
      let (a, b, c) = done in ground (arith, run, a, b, c)
]

-- On every buffer the codec without copies hands over exactly the payloads that `extractFrames`
-- returns, in the same order, and returns their number.
pub decode_zc-extract_frames :
    (d : ByteBuffer)
    → (ms : List ByteBuffer) × (r s : ByteBuffer) × (decode_zc d
        ≡ some (record { result = length ms; handed = ms; left = r }))
      × (extract_frames d ≡ some (ms, s))
decode_zc-extract_frames d =
    let (ms, r, p) = decode_total 8 (suc (length d)) d (omega arith) (omega arith) in
    let (ns, s, q) = decode_total 4 (suc (length d)) d (omega arith) (omega arith) in
    let same = decode_need (suc (length d)) (suc (length d)) d ms ns r s p q in
    (
      ms,
      r,
      s,
      decode_zc-decode d ms r p,
      extract_frames-decode d ∙ q ∙ ap (λ k. some (k, s)) (sym same),
    )

-- Both senders put the same bytes on the wire; where the payload is too large one throws and the other
-- sends nothing.
pub encode-encode_frame :
    (p : ByteBuffer)
    → Option.map buffers (encode p)
      ≡ (if ltb max_message_size (length p) then none else some (encode_frame p))
unfolding encode encode_frame buffers
encode-encode_frame p = ground arith
