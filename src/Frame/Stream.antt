-- ===== src/Frame/Stream.antt =====
-- What the reference decoder does with a stream that arrives in pieces.
use dungeon_crawler.Base.{
  ℕ, zero, suc, ◌+◌, ◌≤◌, ◌<◌, ◌≡◌, sym, ap, ◌∙◌, inl, inr, Option, none, some, List, [], ◌∷◌, ◌++◌,
  arith, dec_lt, length, drop, length-append, length-drop, drop-append_le,
}
use dungeon_crawler.Frame.{ByteBuffer, skip, wait, frame, examine}
use dungeon_crawler.Frame.Reader.{
  decode, push_message, examine-append, examine_bounds, Verdict-cases,
}

pub push_message-some :
    (p : ByteBuffer) (o : Option (List ByteBuffer × ByteBuffer)) {ms : List ByteBuffer}
    {r : ByteBuffer}
    → push_message p o ≡ some (ms, r)
    → (ms' : List ByteBuffer) × (o ≡ some (ms', r)) × (ms ≡ p ∷ ms')
push_message-some p none h = absurd (cc h)
push_message-some p (some (ms', r')) h = (ms', ground arith, ground arith)

-- The four ways of one round.
pub decode_stop :
    (need f : ℕ) (d : ByteBuffer) → length d < need → decode need (suc f) d ≡ some ([], d)
unfolding decode
decode_stop need f d h = ground arith

pub decode_skip :
    (need f : ℕ) (d : ByteBuffer)
    → need ≤ length d
    → examine d 0 ≡ skip
    → decode need (suc f) d ≡ decode need f (drop 1 d)
unfolding decode
decode_skip need f d h e = ground arith

pub decode_wait :
    (need f : ℕ) (d : ByteBuffer)
    → need ≤ length d
    → examine d 0 ≡ wait
    → decode need (suc f) d ≡ some ([], d)
unfolding decode
decode_wait need f d h e = ground arith

pub decode_frame :
    (need f : ℕ) (d p : ByteBuffer) (n : ℕ)
    → need ≤ length d
    → examine d 0 ≡ frame p n
    → decode need (suc f) d ≡ push_message p (decode need f (drop n d))
unfolding decode
decode_frame need f d p n h e = ground arith

-- More fuel than bytes is enough.
pub decode_total :
    (need f : ℕ) (d : ByteBuffer)
    → 0 < need
    → length d < f
    → (ms : List ByteBuffer) × (r : ByteBuffer) × (decode need f d ≡ some (ms, r))
decode_total need zero d h b = absurd (omega arith)
decode_total need (suc f) d h b = elim (dec_lt (length d) need) [
  | yes short ↦ ([], d, decode_stop need f d short)
  | no long ↦ elim (Verdict-cases (examine d 0)) [
    | inl e ↦
        let (ms, r, q) = decode_total need f (drop 1 d) h (omega (arith, length-drop 1 d)) in
        (ms, r, decode_skip need f d (omega arith) e ∙ q)
    | inr (inl e) ↦ ([], d, decode_wait need f d (omega arith) e)
    | inr (inr (p, n, e)) ↦
        let (ms, r, q) =
          decode_total need f (drop n d) h
            (omega (arith, length-drop n d, examine_bounds d p n e)) in
        (p ∷ ms, r, decode_frame need f d p n (omega arith) e ∙ ap (push_message p) q)
  ]
]

-- More fuel changes no result.
pub decode_mono :
    (need f g : ℕ) (d : ByteBuffer) (x : List ByteBuffer × ByteBuffer)
    → f ≤ g
    → decode need f d ≡ some x
    → decode need g d ≡ some x
unfolding decode
decode_mono need zero g d x h e = absurd (cc e)
decode_mono need (suc f) zero d x h e = absurd (omega arith)
decode_mono need (suc f) (suc g) d x h e = elim (dec_lt (length d) need) [
  | yes short ↦ decode_stop need g d short ∙ sym (decode_stop need f d short) ∙ e
  | no long ↦ elim (Verdict-cases (examine d 0)) [
    | inl v ↦
        decode_skip need g d (omega arith) v
        ∙ decode_mono need f g (drop 1 d) x (omega arith)
            (sym (decode_skip need f d (omega arith) v) ∙ e)
    | inr (inl v) ↦
        decode_wait need g d (omega arith) v ∙ sym (decode_wait need f d (omega arith) v) ∙ e
    | inr (inr (p, n, v)) ↦
        let (ms, q, t) =
          push_message-some p (decode need f (drop n d))
            (sym (decode_frame need f d p n (omega arith) v) ∙ e) in
        decode_frame need g d p n (omega arith) v
        ∙ ap (push_message p) (decode_mono need f g (drop n d) (ms, x.1) (omega arith) q)
        ∙ cc t
  ]
]

-- Where the first piece yields nothing, all of it is read again with the second.
kept :
    (g h : ℕ) (d e : ByteBuffer) (ms ns : List ByteBuffer) (r s : ByteBuffer)
    (o : Option (List ByteBuffer × ByteBuffer))
    → g ≤ h
    → o ≡ some ([], d)
    → o ≡ some (ms, r)
    → decode 4 g (r ++ e) ≡ some (ns, s)
    → decode 4 h (d ++ e) ≡ some (ms ++ ns, s)
kept g h d e ms ns r s o b p q t =
    let none_read : ms ≡ [] = ground arith in
    let all_left : r ≡ d = ground arith in
    rw (none_read) (rw (← all_left) (decode_mono 4 g h (r ++ e) (ns, s) b t))

-- A stream that is cut anywhere gives the same payloads: those of the first piece, then those of what
-- the first piece left together with the second.
pub decode-append :
    (f g h : ℕ) (d e : ByteBuffer) (ms ns : List ByteBuffer) (r s : ByteBuffer)
    → f + g ≤ h
    → decode 4 f d ≡ some (ms, r)
    → decode 4 g (r ++ e) ≡ some (ns, s)
    → decode 4 h (d ++ e) ≡ some (ms ++ ns, s)
unfolding decode
decode-append zero g h d e ms ns r s b p q = absurd (cc p)
decode-append (suc f) g zero d e ms ns r s b p q = absurd (omega arith)
decode-append (suc f) g (suc h) d e ms ns r s b p q = elim (dec_lt (length d) 4) [
  | yes short ↦ kept g (suc h) d e ms ns r s _ (omega arith) (decode_stop 4 f d short) p q
  | no long ↦ elim (Verdict-cases (examine d 0)) [
    | inl v ↦
        let same = examine-append d e (omega arith) (λ w. cc (v, w)) in
        decode_skip 4 h (d ++ e) (omega (arith, length-append {0} d e)) (same ∙ v)
        ∙ ap (decode 4 h) (drop-append_le 1 d e (omega arith))
        ∙ decode-append f g h (drop 1 d) e ms ns r s (omega arith)
            (sym (decode_skip 4 f d (omega arith) v) ∙ p) q
    | inr (inl v) ↦
        kept g (suc h) d e ms ns r s _ (omega arith) (decode_wait 4 f d (omega arith) v) p q
    | inr (inr (m, n, v)) ↦
        let same = examine-append d e (omega arith) (λ w. cc (v, w)) in
        let (ms', t, u) =
          push_message-some m (decode 4 f (drop n d))
            (sym (decode_frame 4 f d m n (omega arith) v) ∙ p) in
        decode_frame 4 h (d ++ e) m n (omega (arith, length-append {0} d e)) (same ∙ v)
        ∙ ap (λ k. push_message m (decode 4 h k))
            (drop-append_le n d e (omega (arith, examine_bounds d m n v)))
        ∙ ap (push_message m) (decode-append f g h (drop n d) e ms' ns r s (omega arith) t q)
        ∙ ap (λ k. some (k ++ ns, s)) (sym u)
  ]
]
