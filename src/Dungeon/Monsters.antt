-- ===== src/Dungeon/Monsters.antt =====
-- src/server/domain/dungeon/monster_control.h. The random draws of a call are its arguments: for
-- each round the index that `dist` yields, below the number of monsters, and the direction that
-- the generator yields.
use dungeon_crawler.Base.{
  ◌==◌, if◌then◌else◌, length, get_elem?, ℕ, zero, suc, ◌+◌, min, not, Option, none, some,
}
use dungeon_crawler.Types.Direction.{Direction}
use dungeon_crawler.World.Position.{pos_add, position_offset_from_direction}
use dungeon_crawler.World.GameMap.{GameMap}
use dungeon_crawler.World.Entity.{Entity, is_alive, hurt}
use dungeon_crawler.Dungeon.EntityManager.{
  EntityMap, modify, is_living, move_entity, get_entity, find_closest_target,
}
use dungeon_crawler.Dungeon.Spawner.{is_available}

-- One round of `moveRandomMonsters` for the entry that the index points at. An index past the
-- end, which `dist` cannot yield, is `none`.
unfoldable pub move_one :
    GameMap → EntityMap → Direction → EntityMap → Option (ℕ × Entity) → EntityMap
move_one world players dir monsters none = monsters
move_one world players dir monsters (some (id, e)) =
    let new_pos = pos_add e.position (position_offset_from_direction dir) in
    if not (is_alive e)
    then monsters
    else if is_available world players monsters new_pos
    then (move_entity id dir new_pos monsters).0
    else monsters

unfoldable pub move_rounds :
    GameMap → EntityMap → ℕ → (ℕ → ℕ) → (ℕ → Direction) → ℕ → EntityMap → EntityMap
move_rounds world players zero index dirs i monsters = monsters
move_rounds world players (suc rounds) index dirs i monsters =
    move_rounds world players rounds index dirs (i + 1)
      (move_one world players (dirs i) monsters (get_elem? monsters (index i)))

unfoldable pub move_random_monsters :
    GameMap → EntityMap → ℕ → (ℕ → ℕ) → (ℕ → Direction) → EntityMap → EntityMap
move_random_monsters world players max_moves index dirs monsters =
    if length monsters == 0
    then monsters
    else move_rounds world players (min max_moves (length monsters)) index dirs 0 monsters

-- A hit on the target, if there is one and it is alive.
unfoldable pub hit_target : ℕ → Option ℕ → EntityMap → EntityMap
hit_target power none players = players
hit_target power (some target) players =
    if is_living (get_entity target players) then modify target (hurt power) players else players

unfoldable pub attack_one : ℕ → EntityMap → Option (ℕ × Entity) → EntityMap
attack_one power players none = players
attack_one power players (some (id, e)) =
    if not (is_alive e)
    then players
    else hit_target power (find_closest_target e.position e.info.radius_attack players) players

unfoldable pub attack_rounds : EntityMap → ℕ → ℕ → (ℕ → ℕ) → ℕ → EntityMap → EntityMap
attack_rounds monsters power zero index i players = players
attack_rounds monsters power (suc rounds) index i players =
    attack_rounds monsters power rounds index (i + 1)
      (attack_one power players (get_elem? monsters (index i)))

unfoldable pub perform_random_attacks : EntityMap → ℕ → ℕ → (ℕ → ℕ) → EntityMap → EntityMap
perform_random_attacks monsters power max_attacks index players =
    if length monsters == 0
    then players
    else attack_rounds monsters power (min max_attacks (length monsters)) index 0 players
