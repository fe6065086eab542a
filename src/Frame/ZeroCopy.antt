-- ===== src/Frame/ZeroCopy.antt =====
-- src/common/network/frame_codec_zc.h: the codec without copies, whose loop asks for a whole
-- header before it looks for the magic number. The callback is one that returns and throws
-- nothing, so a call is what it hands over: the list of the payloads.
pub mod Agree
use dungeon_crawler.Base.{
  ℕ, zero, suc, ◌+◌, ◌%◌, ◌^◌, true, false, not, Option, none, some, List, [], ◌∷◌, ◌++◌, ltb, leb,
  ◌==◌, if◌then◌else◌, ◌>>=◌, length, take, drop,
}
use dungeon_crawler.Frame.{
  ByteBuffer, Verdict, skip, wait, frame, store_u32, load_u32, magic, max_message_size,
}

abbrev pub header_length : ℕ
header_length = 8

-- The two buffers of a frame.
pub record Frame : Type 0 where
  pub header : ByteBuffer
  pub payload : ByteBuffer

unfoldable pub buffers : Frame → ByteBuffer
buffers f = f.header ++ f.payload

-- `none` is std::length_error.
unfoldable pub encode : ByteBuffer → Option Frame
unfolding store_u32
encode payload =
    if ltb max_message_size (length payload)
    then none
    else some (record {
      header = store_u32 magic ++ store_u32 (length payload % 2 ^ 32);
      payload = payload;
    })

-- The loop body, at an offset with a whole header behind it.
unfoldable pub examine_header : ByteBuffer → ℕ → Verdict
examine_header bytes offset =
    let length_v = load_u32 bytes (offset + 4) in
    let total = header_length + length_v in
    if not (load_u32 bytes offset == magic)
    then skip
    else if ltb max_message_size length_v
    then skip
    else if ltb (length bytes) (offset + total)
    then wait
    else frame (take length_v (drop (offset + header_length) bytes)) total

-- The loop's variables, and the payloads handed to the callback so far.
pub record ZcScan : Type 0 where
  pub count : ℕ
  pub offset : ℕ
  pub handed : List ByteBuffer

unfoldable pub scan_zc : ℕ → ByteBuffer → ZcScan → Option ZcScan
unfolding examine_header
scan_zc zero bytes s = none
scan_zc (suc fuel) bytes s = elim (leb (s.offset + header_length) (length bytes)) [
  | false ↦ some s
  | true ↦ elim (examine_header bytes s.offset) [
    | skip ↦ scan_zc fuel bytes (record s { offset = s.offset + 1 })
    | wait ↦ some s
    | frame p n ↦
        scan_zc fuel bytes
          (record { count = s.count + 1; offset = s.offset + n; handed = s.handed ++ (p ∷ []) })
  ]
]

pub record Decoded : Type 0 where
  pub result : ℕ
  pub handed : List ByteBuffer
  pub left : ByteBuffer

-- The guard consumes the offset on the way out.
unfoldable pub decode_zc : ByteBuffer → Option Decoded
unfolding scan_zc
decode_zc buffer =
    if ltb (length buffer) header_length
    then some (record { result = 0; handed = []; left = buffer })
    else (scan_zc (suc (length buffer)) buffer (record { count = 0; offset = 0; handed = [] })
        >>= λ s. some (record { result = s.count; handed = s.handed; left = drop s.offset buffer }))
