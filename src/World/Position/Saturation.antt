-- ===== src/World/Position/Saturation.antt =====
-- The arithmetic of coordinates stops at the ends of int64_t, and never wraps.
use dungeon_crawler.Base.{
  ℕ, ◌+◌, ◌-◌, ◌^◌, ◌<◌, min, ◌≡◌, ◌↔◌, true, arith, if◌then◌else◌, ℤ, pos_part, neg_part, ◌+ℤ◌,
  ◌-ℤ◌, ltb_ℤ, eqb_ℤ_iff, pos, negsuc,
}
use dungeon_crawler.World.Position.{
  max_i64, min_i64, max_u64, IsInt64, Position, IsPosition, pos_eq, add_i64, sub_i64, add_u64,
  delta, pos_add, pos_sub,
}

-- The integer that is nearest in the type.
unfoldable pub clamp_i64 : ℤ → ℤ
clamp_i64 z = if ltb_ℤ max_i64 z then max_i64 else if ltb_ℤ z min_i64 then min_i64 else z

-- |a - b|
unfoldable pub abs_diff : ℤ → ℤ → ℕ
abs_diff a b =
    (pos_part a + neg_part b - (pos_part b + neg_part a))
    + (pos_part b + neg_part a - (pos_part a + neg_part b))

add_i64-clamp : (a b : ℤ) → IsInt64 a → IsInt64 b → add_i64 a b ≡ clamp_i64 (a +ℤ b)
unfolding add_i64 clamp_i64
add_i64-clamp (pos m) (pos n) ha hb = ground arith
add_i64-clamp (pos m) (negsuc n) ha hb = ground arith
add_i64-clamp (negsuc m) (pos n) ha hb = ground arith
add_i64-clamp (negsuc m) (negsuc n) ha hb = ground arith

sub_i64-clamp : (a b : ℤ) → IsInt64 a → IsInt64 b → sub_i64 a b ≡ clamp_i64 (a -ℤ b)
unfolding sub_i64 clamp_i64
sub_i64-clamp (pos m) (pos n) ha hb = ground arith
sub_i64-clamp (pos m) (negsuc n) ha hb = ground arith
sub_i64-clamp (negsuc m) (pos n) ha hb = ground arith
sub_i64-clamp (negsuc m) (negsuc n) ha hb = ground arith

clamp_i64-IsInt64 : (z : ℤ) → IsInt64 (clamp_i64 z)
unfolding clamp_i64
clamp_i64-IsInt64 z = ground arith

pub delta-abs_diff : (a b : ℤ) → IsInt64 a → IsInt64 b → delta a b ≡ abs_diff a b
unfolding delta abs_diff
delta-abs_diff (pos m) (pos n) ha hb = ground arith
delta-abs_diff (pos m) (negsuc n) ha hb = ground arith
delta-abs_diff (negsuc m) (pos n) ha hb = ground arith
delta-abs_diff (negsuc m) (negsuc n) ha hb = ground arith

pub add_u64-min : (a b : ℕ) → a < 2 ^ 64 → b < 2 ^ 64 → add_u64 a b ≡ min max_u64 (a + b)
unfolding add_u64
add_u64-min a b ha hb = ground arith

-- The sum of two positions is the exact sum, moved to the nearest value of the type on each axis: it is
-- a position, and nothing wraps. The same holds of the difference.
pub pos_add_saturates :
    (p q : Position)
    → IsPosition p
    → IsPosition q
    → (pos_add p q ≡ record { x = clamp_i64 (q.x +ℤ p.x); y = clamp_i64 (q.y +ℤ p.y) })
      × (pos_sub p q ≡ record { x = clamp_i64 (p.x -ℤ q.x); y = clamp_i64 (p.y -ℤ q.y) })
      × IsPosition (pos_add p q)
      × IsPosition (pos_sub p q)
unfolding pos_add pos_sub
pos_add_saturates p q hp hq =
    let ax = add_i64-clamp q.x p.x hq.0 hp.0 in
    let ay = add_i64-clamp q.y p.y hq.1 hp.1 in
    let sx = sub_i64-clamp p.x q.x hp.0 hq.0 in
    let sy = sub_i64-clamp p.y q.y hp.1 hq.1 in
    (
      rw (ax, ay),
      rw (sx, sy),
      rw (ax, ay) (clamp_i64-IsInt64 _, clamp_i64-IsInt64 _),
      rw (sx, sy) (clamp_i64-IsInt64 _, clamp_i64-IsInt64 _),
    )

-- A position holds exactly when its coordinates do.
pub pos_eq_iff : (p q : Position) → (pos_eq p q ≡ true) ↔ (p ≡ q)
unfolding pos_eq
pos_eq_iff p q = ground (arith, eqb_ℤ_iff p.x q.x, eqb_ℤ_iff p.y q.y)
