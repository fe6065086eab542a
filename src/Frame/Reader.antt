-- ===== src/Frame/Reader.antt =====
-- A decoder without offsets, as the reference for the loop: it reads from the front of the bytes
-- that are left, and returns the payloads and the bytes that it leaves.
use dungeon_crawler.Base.{
  ℕ, zero, suc, ◌+◌, ◌-◌, ◌≤◌, ◌<◌, ◌≡◌, refl, ◌≢◌, ◌⊎◌, inl, inr, true, false, Option, none, some,
  List, [], ◌∷◌, ◌++◌, arith, leb, length, take, drop, length-append, length-drop, drop-append_le,
  take-append_le, byte_at-drop, byte_at-append, drop-drop,
}
use dungeon_crawler.Frame.{ByteBuffer, Verdict, skip, wait, frame, examine, load_u32}

abbrev pub push_message :
    ByteBuffer → Option (List ByteBuffer × ByteBuffer) → Option (List ByteBuffer × ByteBuffer)
push_message p none = none
push_message p (some (ms, rest)) = some (p ∷ ms, rest)

-- `need` is the number of bytes below which the loop ends.
unfoldable pub decode : ℕ → ℕ → ByteBuffer → Option (List ByteBuffer × ByteBuffer)
decode need zero d = none
decode need (suc fuel) d = elim (leb need (length d)) [
  | false ↦ some ([], d)
  | true ↦ elim (examine d 0) [
    | skip ↦ decode need fuel (drop 1 d)
    | wait ↦ some ([], d)
    | frame p n ↦ push_message p (decode need fuel (drop n d))
  ]
]

load_u32-drop : (o k : ℕ) (d : ByteBuffer) → load_u32 (drop o d) k ≡ load_u32 d (o + k)
unfolding load_u32
load_u32-drop o k d = ground (
  arith,
  byte_at-drop o d k,
  byte_at-drop o d (k + 1),
  byte_at-drop o d (k + 2),
  byte_at-drop o d (k + 3),
)

-- The loop body looks at nothing before the offset.
pub examine-drop : (o : ℕ) (d : ByteBuffer) → o ≤ length d → examine (drop o d) 0 ≡ examine d o
unfolding examine
examine-drop o d h =
    ground (arith, load_u32-drop o 0 d, load_u32-drop o 4 d, length-drop o d, drop-drop 8 o d)

pub load_u32-append :
    (k : ℕ) (d e : ByteBuffer) → k + 4 ≤ length d → load_u32 (d ++ e) k ≡ load_u32 d k
unfolding load_u32
load_u32-append k d e h = ground (
  arith,
  byte_at-append d e k,
  byte_at-append d e (k + 1),
  byte_at-append d e (k + 2),
  byte_at-append d e (k + 3),
)

-- More bytes behind change no verdict but `wait`.
pub examine-append :
    (d e : ByteBuffer) → 4 ≤ length d → examine d 0 ≢ wait → examine (d ++ e) 0 ≡ examine d 0
unfolding examine
examine-append d e h nw = ground (
  arith,
  load_u32-append 0 d e,
  load_u32-append 4 d e,
  length-append d e,
  drop-append_le 8 d e,
  take-append_le (load_u32 d 4) (drop 8 d) e,
  length-drop 8 d,
)

-- A frame that is found lies within the bytes, and is not empty.
pub examine_bounds :
    (d p : ByteBuffer) (n : ℕ)
    → examine d 0 ≡ frame p n
    → (8 ≤ n) × (n ≤ length d) × (p ≡ take (n - 8) (drop 8 d))
unfolding examine
examine_bounds d p n h = ground arith

-- Fewer than eight bytes hold no frame.
pub examine_short : (d p : ByteBuffer) (n : ℕ) → length d < 8 → examine d 0 ≢ frame p n
unfolding examine
examine_short d p n h = ground arith

-- The case split that keeps the verdict.
pub Verdict-cases :
    (v : Verdict) → (v ≡ skip) ⊎ ((v ≡ wait) ⊎ ((p : ByteBuffer) × (n : ℕ) × (v ≡ frame p n)))
Verdict-cases skip = inl refl
Verdict-cases wait = inr (inl refl)
Verdict-cases (frame p n) = inr (inr (p, n, refl))
