-- ===== src/World/GameMap.antt =====
-- src/server/domain/map/map_size.h and game_map.h, game_map.cpp. The barriers, a
-- std::unordered_set of positions, are the list of them in iteration order.
pub mod Barriers
use dungeon_crawler.Base.{
  if◌then◌else◌, ltb_ℤ, leb_ℤ, Bool, true, false, not, ◌&&◌, ◌||◌, List, [], ◌∷◌,
}
use dungeon_crawler.Settings.{Settings}
use dungeon_crawler.World.Position.{Position, pos_eq}

pub record MapSize : Type 0 where
  pub bottom_left_corner : Position
  pub top_right_corner : Position

-- The assertion of the constructor.
unfoldable pub is_correct : MapSize → Bool
is_correct m =
    ltb_ℤ m.bottom_left_corner.x m.top_right_corner.x
    && ltb_ℤ m.bottom_left_corner.y m.top_right_corner.y

unfoldable pub size_contains : MapSize → Position → Bool
size_contains m p =
    leb_ℤ m.bottom_left_corner.x p.x
    && (leb_ℤ m.bottom_left_corner.y p.y
        && (leb_ℤ p.x m.top_right_corner.x && leb_ℤ p.y m.top_right_corner.y))

pub record GameMap : Type 0 where
  pub map_size : MapSize
  pub barriers : List Position

-- `std::unordered_set<Position>::contains`
unfoldable pub position_in : Position → List Position → Bool
position_in p [] = false
position_in p (q ∷ qs) = pos_eq q p || position_in p qs

-- `std::unordered_set<Position>::erase`
unfoldable pub position_erase : Position → List Position → List Position
position_erase p [] = []
position_erase p (q ∷ qs) = if pos_eq q p then position_erase p qs else q ∷ position_erase p qs

unfoldable pub is_barrier : GameMap → Position → Bool
is_barrier m p = position_in p m.barriers

unfoldable pub is_in_map : GameMap → Position → Bool
is_in_map m p = size_contains m.map_size p

unfoldable pub map_available : GameMap → Position → Bool
map_available m p = is_in_map m p && not (is_barrier m p)

-- The new map, and the result. (`emplace` inserts, as the position is not in the set.)
unfoldable pub add_barrier : GameMap → Position → GameMap × Bool
add_barrier m p =
    if not (is_in_map m p)
    then (m, false)
    else if is_barrier m p
    then (m, false)
    else (record m { barriers = p ∷ m.barriers }, true)

unfoldable pub remove_barrier : GameMap → Position → GameMap × Bool
remove_barrier m p =
    if position_in p m.barriers
    then (record m { barriers = position_erase p m.barriers }, true)
    else (m, false)

-- `getCfgMapSize`, and the map without barriers that `GameMap{}` is.
unfoldable pub cfg_map_size : Settings → MapSize
cfg_map_size c = record {
  bottom_left_corner = record { x = c.default_map_blc_x; y = c.default_map_blc_y };
  top_right_corner = record { x = c.default_map_trc_x; y = c.default_map_trc_y };
}

unfoldable pub default_map : Settings → GameMap
unfolding cfg_map_size
default_map c = record { map_size = cfg_map_size c; barriers = [] }
