-- ===== src/Frame/Tests.antt =====
-- The theorems about frames, at a frame that arrives in two pieces.
use dungeon_crawler.Base.{length, suc, ◌≡◌, refl, some, List, [], ◌∷◌, ◌++◌, arith}
use dungeon_crawler.Frame.{
  ByteBuffer, store_u32, load_u32, encode_frame, examine, scan, bytes_to_consume, extract_frames,
}
use dungeon_crawler.Frame.Reader.{decode}
use dungeon_crawler.Frame.Refine.{
  extract_frames-decode, extract_frames_total, extract_frames-append,
}
use dungeon_crawler.Frame.RoundTrip.{encode_all, extract_frames-encode_all}
use dungeon_crawler.Frame.ZeroCopy.{decode_zc}
use dungeon_crawler.Frame.ZeroCopy.Agree.{decode_zc-extract_frames}

abbrev hello : ByteBuffer
hello = 104 ∷ 105 ∷ []

abbrev first_piece : ByteBuffer
first_piece = 0 ∷ 222 ∷ 173 ∷ 190 ∷ 239 ∷ 0 ∷ []

abbrev kept : ByteBuffer
kept = 222 ∷ 173 ∷ 190 ∷ 239 ∷ 0 ∷ []

abbrev second_piece : ByteBuffer
second_piece = 0 ∷ 0 ∷ 2 ∷ 104 ∷ 105 ∷ []

abbrev frame_start : ByteBuffer
frame_start = 222 ∷ 173 ∷ 190 ∷ 239 ∷ 0 ∷ 0 ∷ []

abbrev frame_end : ByteBuffer
frame_end = 0 ∷ 2 ∷ 104 ∷ 105 ∷ []

first_run : extract_frames first_piece ≡ some ([], kept)
unfolding extract_frames scan examine bytes_to_consume load_u32
first_run = refl

second_run : extract_frames (kept ++ second_piece) ≡ some (hello ∷ [], [])
unfolding extract_frames scan examine bytes_to_consume load_u32
second_run = refl

split_frame : frame_start ++ frame_end ≡ encode_frame hello
unfolding encode_frame store_u32
split_frame = refl

extract_frames-append_example :
    extract_frames (first_piece ++ second_piece) ≡ some ([] ++ (hello ∷ []), [])
extract_frames-append_example =
    extract_frames-append first_piece second_piece [] (hello ∷ []) kept [] first_run second_run

extract_frames-encode_all_example :
    extract_frames (encode_all (hello ∷ []) ++ frame_start) ≡ some (hello ∷ [], frame_start)
extract_frames-encode_all_example =
    extract_frames-encode_all (hello ∷ []) hello frame_start frame_end (omega arith, tt)
      (omega arith) split_frame (omega arith)

extract_frames-decode_example :
    extract_frames first_piece ≡ decode 4 (suc (length first_piece)) first_piece
extract_frames-decode_example = extract_frames-decode first_piece

extract_frames_total_example :
    (ms : List ByteBuffer) × (r : ByteBuffer) × (extract_frames first_piece ≡ some (ms, r))
extract_frames_total_example = extract_frames_total first_piece

decode_zc-extract_frames_example :
    (ms : List ByteBuffer) × (r s : ByteBuffer) × (decode_zc first_piece
      ≡ some (record { result = length ms; handed = ms; left = r }))
    × (extract_frames first_piece ≡ some (ms, s))
decode_zc-extract_frames_example = decode_zc-extract_frames first_piece
