-- ===== src/Dungeon/EntityManager.antt =====
-- src/server/domain/dungeon/entity_manager.h. The managers of players and of monsters have the same code:
-- a map from ids to entities.
use dungeon_crawler.Base.{
  ltb, leb, ◌==◌, if◌then◌else◌, Dict, find, contains, assign, emplace, ℕ, ◌+◌, ◌%◌, ◌^◌, ◌≡◌, Bool,
  true, false, not, ◌&&◌, ◌||◌, Option, none, some, [], ◌∷◌,
}
use dungeon_crawler.Settings.{Settings}
use dungeon_crawler.Types.Direction.{Direction}
use dungeon_crawler.World.Position.{Position, pos_eq, manhattan_distance}
use dungeon_crawler.World.Entity.{EntityType, Entity, new_entity, is_alive, set_position}

abbrev pub EntityMap : Type 0
EntityMap = Dict Entity

-- A change to the entity that `find` or an iterator points at.
unfoldable pub modify : ℕ → (Entity → Entity) → EntityMap → EntityMap
modify k f [] = []
modify k f ((j, e) ∷ m) = if j == k then (j, f e) ∷ m else (j, e) ∷ modify k f m

unfoldable pub add_entity : Settings → EntityType → ℕ → Position → EntityMap → EntityMap × Bool
unfolding contains emplace new_entity
add_entity c kind id p m =
    if contains id m then (m, false) else (emplace id (new_entity c kind id p) m, true)

-- `it == end || !it->second.isAlive()`
unfoldable pub is_living : Option Entity → Bool
unfolding is_alive
is_living none = false
is_living (some e) = is_alive e

unfoldable pub move_entity : ℕ → Direction → Position → EntityMap → EntityMap × Bool
unfolding find is_living modify set_position
move_entity id dir new_pos m =
    if not (is_living (find id m)) then (m, false) else (modify id (set_position new_pos) m, true)

unfoldable pub get_entity : ℕ → EntityMap → Option Entity
unfolding find
get_entity id m = find id m

unfoldable pub is_occupied : Position → EntityMap → Bool
unfolding pos_eq
is_occupied p [] = false
is_occupied p ((id, e) ∷ m) = pos_eq e.position p || is_occupied p m

-- The loop of `findClosestTarget`, from the best distance and target so far. The recursive calls wait
-- in the cases.
unfoldable pub closest_from : Position → ℕ → EntityMap → ℕ → Option ℕ → Option ℕ
unfolding is_alive manhattan_distance
closest_from from radius [] min_dist closest = closest
closest_from from radius ((id, t) ∷ rest) min_dist closest =
    let dist = manhattan_distance from t.position in
    elim (is_alive t && (leb dist radius && ltb dist min_dist)) [
      | false ↦ closest_from from radius rest min_dist closest
      | true ↦ elim (dist == 0) [
        | true ↦ some id
        | false ↦ closest_from from radius rest dist (some id)
      ]
    ]

-- `radius + 1` is computed in uint64_t.
unfoldable pub find_closest_target : Position → ℕ → EntityMap → Option ℕ
unfolding closest_from
find_closest_target from radius targets =
    closest_from from radius targets ((radius + 1) % 2 ^ 64) none

unfoldable pub remove_dead_entities : EntityMap → EntityMap
unfolding is_alive
remove_dead_entities [] = []
remove_dead_entities ((id, e) ∷ m) =
    if not (is_alive e) then remove_dead_entities m else (id, e) ∷ remove_dead_entities m

-- A new id is added under the entity that it starts as.
pub add_entity_new :
    (c : Settings) (kind : EntityType) (id : ℕ) (p : Position) (m : EntityMap)
    → contains id m ≡ false
    → add_entity c kind id p m ≡ (assign id (new_entity c kind id p) m, true)
unfolding add_entity emplace
add_entity_new c kind id p m h = rw h
