-- ===== src/Frame/RoundTrip.antt =====
-- What the sender frames, the receiver extracts.
use dungeon_crawler.Base.{
  length, take, drop, length-append, All, ℕ, zero, suc, ◌+◌, ◌≤◌, ◌<◌, ◌≡◌, refl, sym, ap, ◌∙◌,
  some, List, [], ◌∷◌, ◌++◌, append_assoc, arith, dec_lt,
}
use dungeon_crawler.Frame.{
  ByteBuffer, max_message_size, magic, load_u32, encode_frame, wait, frame, examine, extract_frames,
}
use dungeon_crawler.Frame.Reader.{push_message, decode, load_u32-append}
use dungeon_crawler.Frame.Stream.{decode_stop, decode_wait, decode_frame, decode_mono}
use dungeon_crawler.Frame.Refine.{extract_frames-decode, extract_frames-append}

-- A payload that the codec takes.
abbrev pub IsSmall : ByteBuffer → Type 0
IsSmall p = length p ≤ max_message_size

-- The bytes that a sender of these payloads writes.
unfoldable pub encode_all : List ByteBuffer → ByteBuffer
encode_all [] = []
encode_all (p ∷ ps) = encode_frame p ++ encode_all ps

pub length-encode_frame : (p : ByteBuffer) → IsSmall p → length (encode_frame p) ≡ 8 + length p
unfolding encode_frame
length-encode_frame p h = ground arith

drop-encode_frame : (p : ByteBuffer) → IsSmall p → drop 8 (encode_frame p) ≡ p
unfolding encode_frame
drop-encode_frame p h = ground arith

load-encode_frame :
    (p : ByteBuffer)
    → IsSmall p
    → (load_u32 (encode_frame p) 0 ≡ magic) × (load_u32 (encode_frame p) 4 ≡ length p)
unfolding encode_frame load_u32
load-encode_frame p h = ground arith

take-length {ℓ} : {A : Type ℓ} (xs : List A) → take (length xs) xs ≡ xs
take-length [] = refl
take-length (x ∷ xs) = ap (◌∷◌ x) (take-length xs)

-- A whole frame is recognised.
examine-encode_frame :
    (p : ByteBuffer) → IsSmall p → examine (encode_frame p) 0 ≡ frame p (8 + length p)
unfolding examine
examine-encode_frame p h =
    ground
      (arith, load-encode_frame p h, length-encode_frame p h, drop-encode_frame p h, take-length p)

-- Every proper beginning of a frame, of four bytes or more, waits for the rest.
examine_cut :
    (p a b : ByteBuffer)
    → IsSmall p
    → a ++ b ≡ encode_frame p
    → 0 < length b
    → 4 ≤ length a
    → examine a 0 ≡ wait
unfolding examine
examine_cut p a b h e nb na = elim (dec_lt (length a) 8) [
  | yes short ↦ ground (arith, magic_read, total)
  | no long ↦ ground (arith, magic_read, total, length_read (omega arith))
]
  where
    total : length a + length b ≡ 8 + length p
    total = omega (arith, length-append {0} a b, ap length e, length-encode_frame p h)

    magic_read : load_u32 a 0 ≡ magic
    magic_read =
        sym (load_u32-append 0 a b (omega arith))
        ∙ ap (λ k. load_u32 k 0) e
        ∙ (load-encode_frame p h).0

    length_read : 8 ≤ length a → load_u32 a 4 ≡ length p
    length_read l =
        sym (load_u32-append 4 a b (omega arith))
        ∙ ap (λ k. load_u32 k 4) e
        ∙ (load-encode_frame p h).1

-- A frame that is not complete stays in the buffer, and yields nothing.
pub extract_frames_cut :
    (p a b : ByteBuffer)
    → IsSmall p
    → a ++ b ≡ encode_frame p
    → 0 < length b
    → extract_frames a ≡ some ([], a)
extract_frames_cut p a b h e nb = extract_frames-decode a ∙ elim (dec_lt (length a) 4) [
  | yes short ↦ decode_stop 4 (length a) a short
  | no long ↦ decode_wait 4 (length a) a (omega arith) (examine_cut p a b h e nb (omega arith))
]

drop_all {ℓ} : {A : Type ℓ} (n : ℕ) (xs : List A) → length xs ≤ n → drop n xs ≡ []
drop_all zero [] h = refl
drop_all zero (x ∷ xs) h = absurd (omega arith)
drop_all (suc n) [] h = refl
drop_all (suc n) (x ∷ xs) h = drop_all n xs (omega arith)

extract_frames_one :
    (p : ByteBuffer) → IsSmall p → extract_frames (encode_frame p) ≡ some (p ∷ [], [])
extract_frames_one p h =
    let size = length-encode_frame p h in
    let f = length (encode_frame p) in
    extract_frames-decode (encode_frame p)
    ∙ decode_frame 4 f (encode_frame p) p (8 + length p) (omega (arith, size))
        (examine-encode_frame p h)
    ∙ ap (λ k. push_message p (decode 4 f k))
        (drop_all (8 + length p) (encode_frame p) (omega (arith, size)))
    ∙ ap (push_message p)
        (decode_mono 4 1 f [] ([], []) (omega (arith, size)) (decode_stop 4 0 [] (omega arith)))

-- Any number of frames, followed by the beginning of one more that is not complete (or by nothing),
-- yields the payloads of the complete frames in order, and leaves the beginning in the buffer.
pub extract_frames-encode_all :
    (ps : List ByteBuffer) (p a b : ByteBuffer)
    → All IsSmall ps
    → IsSmall p
    → a ++ b ≡ encode_frame p
    → 0 < length b
    → extract_frames (encode_all ps ++ a) ≡ some (ps, a)
unfolding encode_all
extract_frames-encode_all [] p a b hs h e nb = extract_frames_cut p a b h e nb
extract_frames-encode_all (q ∷ ps) p a b hs h e nb =
    ap extract_frames (append_assoc (encode_frame q) (encode_all ps) a)
    ∙ extract_frames-append (encode_frame q) (encode_all ps ++ a) (q ∷ []) ps [] a
        (extract_frames_one q hs.0) (extract_frames-encode_all ps p a b hs.1 h e nb)
