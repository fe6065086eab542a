-- ===== src/Frame.antt =====
-- src/common/network/frame_codec.h: frames over a byte stream, the magic number and the length in
-- four bytes each, high byte first, then the payload. A buffer is the list of its bytes, so what
-- the streambuf holds after a call is the list that `extract_frames` returns beside the payloads.
-- `scan` is the loop of `extractFrames`, on fuel: `none` says that the fuel ran out, and
-- `Frame.Refine.extract_frames-decode` that it never does.
pub mod Reader
pub mod Refine
pub mod Stream
pub mod RoundTrip
pub mod ZeroCopy
mod Tests
use dungeon_crawler.Base.{
  ℕ, zero, suc, ◌+◌, ◌*◌, ◌/◌, ◌%◌, ◌^◌, true, false, not, Option, none, some, List, [], ◌∷◌, ◌++◌,
  ltb, leb, ◌==◌, if◌then◌else◌, ◌>>=◌, length, take, drop, byte_at,
}

abbrev pub ByteBuffer : Type 0
ByteBuffer = List ℕ

abbrev pub max_message_size : ℕ
max_message_size = 16 * 1024 * 1024

abbrev pub magic : ℕ
magic = 0xDEADBEEF

abbrev pub magic_length : ℕ
magic_length = 4

abbrev pub size_prefix_length : ℕ
size_prefix_length = 4

-- `htonl` and `memcpy`: the four bytes of a 32-bit number, high byte first.
unfoldable pub store_u32 : ℕ → ByteBuffer
store_u32 n = n / 2 ^ 24 % 256 ∷ n / 2 ^ 16 % 256 ∷ n / 2 ^ 8 % 256 ∷ n % 256 ∷ []

-- `memcpy` from `data + offset` and `ntohl`.
unfoldable pub load_u32 : ByteBuffer → ℕ → ℕ
load_u32 bytes offset =
    byte_at bytes offset * 2 ^ 24
    + byte_at bytes (offset + 1) * 2 ^ 16
    + byte_at bytes (offset + 2) * 2 ^ 8
    + byte_at bytes (offset + 3)

-- A payload that is too large gives the empty frame.
unfoldable pub encode_frame : ByteBuffer → ByteBuffer
unfolding store_u32
encode_frame payload =
    if ltb max_message_size (length payload)
    then []
    else store_u32 magic ++ (store_u32 (length payload % 2 ^ 32) ++ payload)

-- What the loop body finds at an offset with four bytes or more behind it.
pub data Verdict : Type 0 where
  -- no magic number here, or a length that is too large: `++offset; continue`
  skip : Verdict
  -- the header or the payload is not complete: `break`
  wait : Verdict
  -- the payload, and the length of the whole frame
  frame : ByteBuffer → ℕ → Verdict

unfoldable pub examine : ByteBuffer → ℕ → Verdict
examine bytes offset =
    let payload_len = load_u32 bytes (offset + magic_length) in
    let total_len = magic_length + size_prefix_length + payload_len in
    if not (load_u32 bytes offset == magic)
    then skip
    else if ltb (length bytes) (offset + magic_length + size_prefix_length)
    then wait
    else if ltb max_message_size payload_len
    then skip
    else if ltb (length bytes) (offset + total_len)
    then wait
    else frame (take payload_len (drop (offset + (magic_length + size_prefix_length)) bytes))
        total_len

-- The variables of the loop.
pub record Scan : Type 0 where
  pub messages : List ByteBuffer
  pub offset : ℕ
  pub first_incomplete_magic_offset : ℕ

unfoldable pub scan : ℕ → ByteBuffer → Scan → Option Scan
unfolding examine
scan zero bytes s = none
scan (suc fuel) bytes s = elim (leb (s.offset + magic_length) (length bytes)) [
  | false ↦ some s
  | true ↦ elim (examine bytes s.offset) [
    | skip ↦ scan fuel bytes (record s { offset = s.offset + 1 })
    | wait ↦ some (record s { first_incomplete_magic_offset = s.offset })
    | frame payload total_len ↦
        scan fuel bytes
          (record s { messages = s.messages ++ (payload ∷ []); offset = s.offset + total_len })
  ]
]

unfoldable pub bytes_to_consume : ℕ → Scan → ℕ
bytes_to_consume buf_size s =
    if not (s.first_incomplete_magic_offset == buf_size)
    then s.first_incomplete_magic_offset
    else s.offset

-- The payloads, and what is left in the buffer.
unfoldable pub extract_frames : ByteBuffer → Option (List ByteBuffer × ByteBuffer)
unfolding scan bytes_to_consume
extract_frames buffer =
    let buf_size = length buffer in
    let start : Scan = record {
      messages = [];
      offset = 0;
      first_incomplete_magic_offset = buf_size;
    } in
    if ltb buf_size magic_length
    then some ([], buffer)
    else (scan (suc buf_size) buffer start >>= λ s.
        some (s.messages, drop (bytes_to_consume buf_size s) buffer))
