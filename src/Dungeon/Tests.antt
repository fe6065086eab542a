-- ===== src/Dungeon/Tests.antt =====
-- The theorems about the dungeon, at one with a player beside a monster.
use dungeon_crawler.Base.{
  find, contains, pos, ℕ, ◌+◌, ◌≤◌, ◌<◌, ◌≡◌, refl, ◌↔◌, ◌⊎◌, Bool, true, false, none, some, [],
  ◌∷◌, arith,
}
use dungeon_crawler.Samples.{settings}
use dungeon_crawler.Types.Direction.{right}
use dungeon_crawler.World.Position.{Position, pos_eq, manhattan_distance}
use dungeon_crawler.World.GameMap.{
  size_contains, GameMap, position_in, is_barrier, is_in_map, map_available,
}
use dungeon_crawler.World.Entity.{alive, monster, Entity, is_alive}
use dungeon_crawler.Types.GameState.{DungeonSnapshot}
use dungeon_crawler.Dungeon.Shown.{Shows, AreDead}
use dungeon_crawler.Dungeon.EntityManager.{add_entity, is_occupied, find_closest_target}
use dungeon_crawler.Dungeon.Targeting.{AreFar, IsEntry, find_closest_target_lem}
use dungeon_crawler.Dungeon.Spawner.{is_available, spawn_entity, spawn_entity_lem}
use dungeon_crawler.Dungeon.Evolution.{Evolves}
use dungeon_crawler.Dungeon.Tick.{process_tick_lem}
use dungeon_crawler.Dungeon.Occupancy.Steps.{IsSeparate}
use dungeon_crawler.Dungeon.Occupancy.Ticks.{process_tick-IsSeparate, new_dungeon-IsSeparate}
use dungeon_crawler.Dungeon.{
  attack_command, move_command, Dungeon, TickDraws, process_tick, new_dungeon,
}

abbrev spot : ℕ → Position
spot n = record { x = pos n; y = pos 0 }

abbrev hall : GameMap
hall = record {
  map_size = record {
    bottom_left_corner = spot 0;
    top_right_corner = record { x = pos 9; y = pos 9 };
  };
  barriers = [];
}

abbrev fighter : ℕ → Entity
fighter n = record {
  id = n;
  position = spot n;
  info = record { health = 10; radius_attack = 1; radius_view = 5 };
  state = alive;
}

abbrev hall_dungeon : Dungeon
hall_dungeon = record {
  game_map = hall;
  players = (0, fighter 0) ∷ [];
  monsters = (1, fighter 1) ∷ [];
  command_queue = attack_command 0 4 ∷ move_command 0 right ∷ [];
  mob_id_counter = 2;
}

abbrev draws : TickDraws
draws = record {
  move_count = 1;
  attack_count = 1;
  move_index = λ i. 0;
  move_direction = λ i. right;
  attack_index = λ i. 0;
}

hall_dungeon-IsSeparate : IsSeparate hall_dungeon
unfolding find is_occupied map_available is_in_map is_barrier size_contains position_in pos_eq
hall_dungeon-IsSeparate = record {
  players_apart = (refl, refl, tt);
  monsters_apart = (refl, refl, tt);
  players_placed = (refl, tt);
  monsters_placed = (refl, tt);
  clear = (refl, tt);
}

process_tick-IsSeparate_example : IsSeparate (process_tick settings draws hall_dungeon).0
process_tick-IsSeparate_example =
    process_tick-IsSeparate settings draws hall_dungeon hall_dungeon-IsSeparate

new_dungeon-IsSeparate_example : IsSeparate (new_dungeon settings spot hall (7 ∷ 8 ∷ []))
new_dungeon-IsSeparate_example = new_dungeon-IsSeparate settings spot hall (7 ∷ 8 ∷ [])

process_tick_lem_example :
    let (d', snapshot) = process_tick settings draws hall_dungeon in
    (d'.command_queue ≡ [])
    × (d'.game_map ≡ hall_dungeon.game_map)
    × Evolves hall_dungeon.players d'.players
    × Evolves hall_dungeon.monsters d'.monsters
    × ((snapshot ≡ none) ↔ AreDead d'.players)
    × ((s : DungeonSnapshot) → snapshot ≡ some s → Shows d' s)
process_tick_lem_example = process_tick_lem settings draws hall_dungeon

find_closest_target_lem_example :
    ((find_closest_target (spot 0) 1 hall_dungeon.monsters ≡ none)
      × AreFar (spot 0) (1 + 1) hall_dungeon.monsters)
    ⊎ ((id : ℕ) × (t : Entity) × (find_closest_target (spot 0) 1 hall_dungeon.monsters ≡ some id)
        × IsEntry id t hall_dungeon.monsters
        × (is_alive t ≡ true)
        × (manhattan_distance (spot 0) t.position < 1 + 1)
        × AreFar (spot 0) (manhattan_distance (spot 0) t.position) hall_dungeon.monsters)
find_closest_target_lem_example =
    find_closest_target_lem (spot 0) 1 hall_dungeon.monsters (omega arith)

abbrev free_in_hall : Position → Bool
free_in_hall p = is_available hall hall_dungeon.players hall_dungeon.monsters p

new_id : contains 5 hall_dungeon.monsters ≡ false
unfolding contains find
new_id = refl

spawn_entity_lem_example :
    (((k : ℕ) → 0 ≤ k → k ≤ 0 + 100 → free_in_hall (spot k) ≡ false)
      × ((spawn_entity settings monster free_in_hall spot hall_dungeon.monsters 5 0).ok ≡ false)
      × ((spawn_entity settings monster free_in_hall spot hall_dungeon.monsters 5 0).entities
          ≡ hall_dungeon.monsters))
    ⊎ ((k : ℕ) × (0 ≤ k)
        × (k ≤ 0 + 100)
        × (free_in_hall (spot k) ≡ true)
        × ((j : ℕ) → 0 ≤ j → j < k → free_in_hall (spot j) ≡ false)
        × (spawn_entity settings monster free_in_hall spot hall_dungeon.monsters 5 0 ≡ record {
          entities = (add_entity settings monster 5 (spot k) hall_dungeon.monsters).0;
          next_draw = k + 1;
          ok = true;
        }))
spawn_entity_lem_example =
    spawn_entity_lem settings monster free_in_hall spot hall_dungeon.monsters 5 0 new_id
