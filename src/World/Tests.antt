-- ===== src/World/Tests.antt =====
-- The theorems about the world, at a corner of the coordinates and on a small map.
use dungeon_crawler.Base.{pos, ◌+ℤ◌, ◌-ℤ◌, ◌≡◌, refl, [], ◌∷◌, arith}
use dungeon_crawler.World.Position.{max_i64, min_i64, Position, IsPosition, pos_add, pos_sub}
use dungeon_crawler.World.Position.Saturation.{clamp_i64, pos_add_saturates}
use dungeon_crawler.World.GameMap.{size_contains, GameMap, position_in}
use dungeon_crawler.World.GameMap.Barriers.{IsValid}
use dungeon_crawler.World.Entity.{alive, Entity}

abbrev corner : Position
corner = record { x = max_i64; y = min_i64 }

abbrev origin : Position
origin = record { x = pos 0; y = pos 0 }

abbrev east : Position
east = record { x = pos 1; y = pos 0 }

corner-IsPosition : IsPosition corner
corner-IsPosition = omega arith

origin-IsPosition : IsPosition origin
origin-IsPosition = omega arith

east-IsPosition : IsPosition east
east-IsPosition = omega arith

pos_add_saturates_example :
    (pos_add corner east
      ≡ record { x = clamp_i64 (east.x +ℤ corner.x); y = clamp_i64 (east.y +ℤ corner.y) })
    × (pos_sub corner east
        ≡ record { x = clamp_i64 (corner.x -ℤ east.x); y = clamp_i64 (corner.y -ℤ east.y) })
    × IsPosition (pos_add corner east)
    × IsPosition (pos_sub corner east)
pos_add_saturates_example = pos_add_saturates corner east corner-IsPosition east-IsPosition

abbrev small_map : GameMap
small_map = record {
  map_size = record {
    bottom_left_corner = origin;
    top_right_corner = record { x = pos 3; y = pos 3 };
  };
  barriers = east ∷ [];
}

small_map-IsValid : IsValid small_map
unfolding size_contains position_in
small_map-IsValid = (refl, refl, tt)

abbrev hero : Entity
hero = record {
  id = 1;
  position = origin;
  info = record { health = 10; radius_attack = 1; radius_view = 5 };
  state = alive;
}
