-- ===== src/World/Position.antt =====
-- src/server/domain/map/position.h: points with int64_t coordinates, whose sums and differences
-- stop at the ends of the type. An int64_t is an integer in its range (`IsInt64`), a uint64_t a
-- natural number below 2 ^ 64. `euclideanDistance` computes in
-- floating point and is left out, with `mul`, which only it calls.
pub mod Saturation
use dungeon_crawler.Base.{
  ℕ, suc, ◌+◌, ◌-◌, ◌%◌, ◌^◌, Bool, ◌&&◌, ltb, if◌then◌else◌, ◌>>◌, ℤ, ◌+ℤ◌, ◌-ℤ◌, ◌≤ℤ◌, ltb_ℤ,
  leb_ℤ, eqb_ℤ, pos, negsuc,
}
use dungeon_crawler.Types.Direction.{Direction, up, down, left, right, raw}

abbrev pub max_i64 : ℤ
max_i64 = pos (2 ^ 63 - 1)

abbrev pub min_i64 : ℤ
min_i64 = negsuc (2 ^ 63 - 1)

abbrev pub max_u64 : ℕ
max_u64 = 2 ^ 64 - 1

abbrev pub IsInt64 : ℤ → Type 0
IsInt64 a = (min_i64 ≤ℤ a) × (a ≤ℤ max_i64)

pub record Position : Type 0 where
  pub x : ℤ
  pub y : ℤ

abbrev pub IsPosition : Position → Type 0
IsPosition p = IsInt64 p.x × IsInt64 p.y

-- `operator==`
unfoldable pub pos_eq : Position → Position → Bool
pos_eq p q = eqb_ℤ p.x q.x && eqb_ℤ p.y q.y

-- `Position::add` at int64_t
unfoldable pub add_i64 : ℤ → ℤ → ℤ
unfolding ◌+ℤ◌ ◌-ℤ◌
add_i64 a b =
    if ltb_ℤ (pos 0) b && ltb_ℤ (max_i64 -ℤ b) a
    then max_i64
    else if ltb_ℤ b (pos 0) && ltb_ℤ a (min_i64 -ℤ b)
    then min_i64
    else a +ℤ b

-- `Position::sub` at int64_t
unfoldable pub sub_i64 : ℤ → ℤ → ℤ
unfolding ◌+ℤ◌ ◌-ℤ◌
sub_i64 a b =
    if ltb_ℤ (pos 0) b && ltb_ℤ a (min_i64 +ℤ b)
    then min_i64
    else if ltb_ℤ b (pos 0) && ltb_ℤ (max_i64 +ℤ b) a
    then max_i64
    else a -ℤ b

-- `Position::add` at uint64_t, where `b < 0` never holds.
unfoldable pub add_u64 : ℕ → ℕ → ℕ
add_u64 a b = if ltb 0 b && ltb (max_u64 - b) a then max_u64 else (a + b) % 2 ^ 64

-- `static_cast<uint64_t>` of an int64_t
unfoldable pub cast_u64 : ℤ → ℕ
cast_u64 (pos n) = n % 2 ^ 64
cast_u64 (negsuc n) = (2 ^ 64 - suc n % 2 ^ 64) % 2 ^ 64

-- a - b of two uint64_t
unfoldable pub sub_u64 : ℕ → ℕ → ℕ
sub_u64 a b = (a + 2 ^ 64 - b) % 2 ^ 64

unfoldable pub delta : ℤ → ℤ → ℕ
unfolding sub_u64 cast_u64
delta a b =
    if leb_ℤ b a then sub_u64 (cast_u64 a) (cast_u64 b) else sub_u64 (cast_u64 b) (cast_u64 a)

unfoldable pub manhattan_distance : Position → Position → ℕ
unfolding delta add_u64
manhattan_distance p other = add_u64 (delta other.x p.x) (delta other.y p.y)

-- `operator+`, that is `operator+=` of the other position by this one.
unfoldable pub pos_add : Position → Position → Position
unfolding add_i64
pos_add p other = record { x = add_i64 other.x p.x; y = add_i64 other.y p.y }

-- `operator-`
unfoldable pub pos_sub : Position → Position → Position
unfolding sub_i64
pos_sub p other = record { x = sub_i64 p.x other.x; y = sub_i64 p.y other.y }

-- The unary `operator-`
unfoldable pub pos_neg : Position → Position
unfolding sub_i64
pos_neg p = record { x = sub_i64 (pos 0) p.x; y = sub_i64 (pos 0) p.y }

unfoldable pub position_offset_from_direction : Direction → Position
position_offset_from_direction up = record { x = pos 0; y = pos 1 }
position_offset_from_direction down = record { x = pos 0; y = negsuc 0 }
position_offset_from_direction left = record { x = negsuc 0; y = pos 0 }
position_offset_from_direction right = record { x = pos 1; y = pos 0 }
position_offset_from_direction (raw n) = record { x = pos 0; y = pos 0 }
