-- ===== src/Dungeon.antt =====
-- src/server/domain/dungeon: dungeon.h, dungeon.cpp and command_queue.h. A command is a closure in the source;
-- here it is the data that the closure holds, and `run_command` is its body. The dungeon is
-- alive while its commands run (`processTick` is called through a shared pointer), so `self.lock()`
-- succeeds. Each command and the monsters' turn hold the mutex to their end, so they are steps
-- that follow one another.
pub mod EntityManager
pub mod Targeting
pub mod Spawner
pub mod Monsters
pub mod Snapshot
pub mod Occupancy
pub mod Evolution
pub mod Shown
pub mod Tick
mod Tests
use dungeon_crawler.Base.{
  ltb, if◌then◌else◌, length, keys, ℕ, zero, suc, ◌+◌, ◌*◌, ◌%◌, ◌^◌, Bool, true, false, not,
  Option, none, some, List, [], ◌∷◌, ◌++◌,
}
use dungeon_crawler.Settings.{Settings}
use dungeon_crawler.Types.Direction.{Direction}
use dungeon_crawler.Types.GameState.{DungeonSnapshot}
use dungeon_crawler.World.Position.{Position, pos_add, position_offset_from_direction}
use dungeon_crawler.World.GameMap.{GameMap}
use dungeon_crawler.World.Entity.{player, monster, Entity, is_alive, hurt}
use EntityManager.{EntityMap, modify, move_entity, get_entity, find_closest_target}
use Spawner.{is_available, spawn_entity, Spawned}
use Monsters.{move_random_monsters, perform_random_attacks}
use Snapshot.{create_game_state_dto}

pub data Command : Type 0 where
  attack_command : ℕ → ℕ → Command
  move_command : ℕ → Direction → Command

pub record Dungeon : Type 0 where
  pub game_map : GameMap
  pub players : EntityMap
  pub monsters : EntityMap
  pub command_queue : List Command
  pub mob_id_counter : ℕ

-- `CommandQueue::push` and `CommandQueue::popAll`
unfoldable pub push_command : Command → List Command → List Command
push_command c queue = queue ++ (c ∷ [])

unfoldable pub pop_all : List Command → List Command × List Command
pop_all queue = (queue, [])

unfoldable pub add_player_attack_command : ℕ → ℕ → Dungeon → Dungeon
add_player_attack_command pid damage d = record d {
  command_queue = push_command (attack_command pid damage) d.command_queue;
}

unfoldable pub add_move_player_command : ℕ → Direction → Dungeon → Dungeon
add_move_player_command pid dir d = record d {
  command_queue = push_command (move_command pid dir) d.command_queue;
}

-- The hit on the target that was found, if any. (`modify` changes nothing at a missing id.)
unfoldable pub attack_target : ℕ → Option ℕ → Dungeon → Dungeon
attack_target damage none d = d
attack_target damage (some target) d = record d {
  monsters = modify target (hurt damage) d.monsters;
}

-- The body of the attack closure, for the player that the id finds.
unfoldable pub run_attack : ℕ → Option Entity → Dungeon → Dungeon
run_attack damage none d = d
run_attack damage (some e) d =
    if not (is_alive e)
    then d
    else attack_target damage (find_closest_target e.position e.info.radius_attack d.monsters) d

-- The body of the move closure.
unfoldable pub run_move : ℕ → Direction → Option Entity → Dungeon → Dungeon
run_move pid dir none d = d
run_move pid dir (some e) d =
    let new_pos = pos_add e.position (position_offset_from_direction dir) in
    if not (is_alive e)
    then d
    else if is_available d.game_map d.players d.monsters new_pos
    then record d { players = (move_entity pid dir new_pos d.players).0 }
    else d

unfoldable pub run_command : Command → Dungeon → Dungeon
run_command (attack_command pid damage) d = run_attack damage (get_entity pid d.players) d
run_command (move_command pid dir) d = run_move pid dir (get_entity pid d.players) d

unfoldable pub run_commands : List Command → Dungeon → Dungeon
run_commands [] d = d
run_commands (c ∷ cs) d = run_commands cs (run_command c d)

-- What the random generators yield in one tick. The counts and indices lie below the number
-- of monsters.
pub record TickDraws : Type 0 where
  pub move_count : ℕ
  pub attack_count : ℕ
  pub move_index : ℕ → ℕ
  pub move_direction : ℕ → Direction
  pub attack_index : ℕ → ℕ

unfoldable pub monsters_turn : Settings → TickDraws → Dungeon → Dungeon
monsters_turn c r d =
    let moved =
      move_random_monsters d.game_map d.players r.move_count r.move_index r.move_direction
        d.monsters in
    let hit =
      perform_random_attacks moved c.monster_default_attack r.attack_count r.attack_index
        d.players in
    if ltb 0 (length d.monsters) then record d { players = hit; monsters = moved } else d

unfoldable pub all_dead : EntityMap → Bool
all_dead [] = true
all_dead ((id, e) ∷ m) = if is_alive e then false else all_dead m

unfoldable pub is_game_over : Dungeon → Bool
is_game_over d = all_dead d.players

unfoldable pub after_commands : Dungeon → Dungeon
after_commands d =
    let (commands, queue) = pop_all d.command_queue in
    run_commands commands (record d { command_queue = queue })

unfoldable pub snapshot_of : Dungeon → DungeonSnapshot
snapshot_of d =
    create_game_state_dto
      (record { game_map = d.game_map; players = d.players; monsters = d.monsters })

-- `none` is the null pointer of a game that is over.
unfoldable pub process_tick : Settings → TickDraws → Dungeon → Dungeon × Option DungeonSnapshot
process_tick c r d =
    let d' = monsters_turn c r (after_commands d) in
    if is_game_over d' then (d', none) else (d', some (snapshot_of d'))

unfoldable pub get_players : Dungeon → List ℕ
get_players d = keys d.players

-- The two loops of the constructor. The draw number is handed on from spawn to spawn.
unfoldable pub spawn_players : Settings → (ℕ → Position) → List ℕ → Dungeon → ℕ → Dungeon × ℕ
spawn_players c draw [] d n = (d, n)
spawn_players c draw (pid ∷ pids) d n =
    let s =
      spawn_entity c player (is_available d.game_map d.players d.monsters) draw d.players pid n in
    spawn_players c draw pids (record d { players = s.entities }) s.next_draw

unfoldable pub spawn_monsters : Settings → (ℕ → Position) → ℕ → Dungeon → ℕ → Dungeon × ℕ
spawn_monsters c draw zero d n = (d, n)
spawn_monsters c draw (suc count) d n =
    let s =
      spawn_entity c monster (is_available d.game_map d.players d.monsters) draw d.monsters
        d.mob_id_counter n in
    spawn_monsters c draw count
      (record d { monsters = s.entities; mob_id_counter = (d.mob_id_counter + 1) % 2 ^ 64 })
      s.next_draw

unfoldable pub new_dungeon : Settings → (ℕ → Position) → GameMap → List ℕ → Dungeon
new_dungeon c draw world initial_players =
    let empty : Dungeon = record {
      game_map = world;
      players = [];
      monsters = [];
      command_queue = [];
      mob_id_counter = 0;
    } in
    let with_players = spawn_players c draw initial_players empty 0 in
    (spawn_monsters c draw (length initial_players * c.monsters_per_player) with_players.0
      with_players.1).0
