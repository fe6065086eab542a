-- ===== src/Dungeon/Occupancy/Ticks.antt =====
-- The entities are kept apart by commands, by the monsters' turn, by a tick, and by the constructor.
use dungeon_crawler.Base.{
  ltb, ◌==◌, Bool-cases, Option-cases, length, get_elem?, ℕ, zero, suc, ◌+◌, ◌*◌, min, inl, inr,
  Option, none, some, List, [], ◌∷◌,
}
use dungeon_crawler.Settings.{Settings}
use dungeon_crawler.Types.Direction.{Direction}
use dungeon_crawler.World.Position.{Position, pos_add, position_offset_from_direction}
use dungeon_crawler.World.GameMap.{GameMap}
use dungeon_crawler.World.Entity.{Entity, is_alive}
use dungeon_crawler.Dungeon.EntityManager.{EntityMap, is_living, get_entity, find_closest_target}
use dungeon_crawler.Dungeon.Spawner.{is_available}
use dungeon_crawler.Dungeon.Monsters.{
  move_one, move_rounds, move_random_monsters, hit_target, attack_one, attack_rounds,
  perform_random_attacks,
}
use dungeon_crawler.Dungeon.{
  Command, attack_command, move_command, Dungeon, pop_all, attack_target, run_attack, run_move,
  run_command, run_commands, TickDraws, monsters_turn, is_game_over, after_commands, process_tick,
  spawn_players, spawn_monsters, new_dungeon,
}
use dungeon_crawler.Dungeon.Occupancy.Steps.{
  AreSeparate, IsSeparate, hurt_players, hurt_monsters, move_players, move_monsters, spawn_player,
  spawn_monster,
}

run_attack-IsSeparate :
    (damage : ℕ) (o : Option Entity) (d : Dungeon)
    → IsSeparate d
    → IsSeparate (run_attack damage o d)
unfolding run_attack attack_target
run_attack-IsSeparate damage none d s = s
run_attack-IsSeparate damage (some e) d s = elim (Bool-cases (is_alive e)) [
  | inr a ↦ rw a s
  | inl a ↦
      rw a (elim (Option-cases (find_closest_target e.position e.info.radius_attack d.monsters)) [
        | inl t ↦ rw (t, attack_target) s
        | inr (target, t) ↦
            rw (t, attack_target) (hurt_monsters d.game_map d.players d.monsters target damage s)
      ])
]

run_move-IsSeparate :
    (pid : ℕ) (dir : Direction) (o : Option Entity) (d : Dungeon)
    → IsSeparate d
    → IsSeparate (run_move pid dir o d)
unfolding run_move
run_move-IsSeparate pid dir none d s = s
run_move-IsSeparate pid dir (some e) d s =
    let p = pos_add e.position (position_offset_from_direction dir) in
    elim (Bool-cases (is_alive e)) [
      | inr a ↦ rw a s
      | inl a ↦ rw a (elim (Bool-cases (is_available d.game_map d.players d.monsters p)) [
        | inr t ↦ rw t s
        | inl t ↦ rw t (move_players d.game_map d.players d.monsters pid dir p t s)
      ])
    ]

run_commands-IsSeparate :
    (cs : List Command) (d : Dungeon) → IsSeparate d → IsSeparate (run_commands cs d)
unfolding run_commands run_command
run_commands-IsSeparate [] d s = s
run_commands-IsSeparate (attack_command pid damage ∷ cs) d s =
    run_commands-IsSeparate cs _ (run_attack-IsSeparate damage (get_entity pid d.players) d s)
run_commands-IsSeparate (move_command pid dir ∷ cs) d s =
    run_commands-IsSeparate cs _ (run_move-IsSeparate pid dir (get_entity pid d.players) d s)

move_one-AreSeparate :
    (world : GameMap) (ps : EntityMap) (dir : Direction) (ms : EntityMap) (o : Option (ℕ × Entity))
    → AreSeparate world ps ms
    → AreSeparate world ps (move_one world ps dir ms o)
unfolding move_one
move_one-AreSeparate world ps dir ms none s = s
move_one-AreSeparate world ps dir ms (some (id, e)) s =
    let p = pos_add e.position (position_offset_from_direction dir) in
    elim (Bool-cases (is_alive e)) [
      | inr a ↦ rw a s
      | inl a ↦ rw a (elim (Bool-cases (is_available world ps ms p)) [
        | inr t ↦ rw t s
        | inl t ↦ rw t (move_monsters world ps ms id dir p t s)
      ])
    ]

move_rounds-AreSeparate :
    (world : GameMap) (ps : EntityMap) (rounds : ℕ) (index : ℕ → ℕ) (dirs : ℕ → Direction) (i : ℕ)
    (ms : EntityMap)
    → AreSeparate world ps ms
    → AreSeparate world ps (move_rounds world ps rounds index dirs i ms)
unfolding move_rounds
move_rounds-AreSeparate world ps zero index dirs i ms s = s
move_rounds-AreSeparate world ps (suc rounds) index dirs i ms s =
    move_rounds-AreSeparate world ps rounds index dirs (i + 1) _
      (move_one-AreSeparate world ps (dirs i) ms (get_elem? ms (index i)) s)

hit_target-AreSeparate :
    (world : GameMap) (power : ℕ) (o : Option ℕ) (ps ms : EntityMap)
    → AreSeparate world ps ms
    → AreSeparate world (hit_target power o ps) ms
unfolding hit_target
hit_target-AreSeparate world power none ps ms s = s
hit_target-AreSeparate world power (some t) ps ms s =
    elim (Bool-cases (is_living (get_entity t ps))) [
      | inl a ↦ rw a (hurt_players world ps ms t power s)
      | inr a ↦ rw a s
    ]

attack_one-AreSeparate :
    (world : GameMap) (power : ℕ) (ps ms : EntityMap) (o : Option (ℕ × Entity))
    → AreSeparate world ps ms
    → AreSeparate world (attack_one power ps o) ms
unfolding attack_one
attack_one-AreSeparate world power ps ms none s = s
attack_one-AreSeparate world power ps ms (some (id, e)) s = elim (Bool-cases (is_alive e)) [
  | inr a ↦ rw a s
  | inl a ↦ rw a (
      hit_target-AreSeparate world power (find_closest_target e.position e.info.radius_attack ps) ps
        ms s)
]

attack_rounds-AreSeparate :
    (world : GameMap) (ms others : EntityMap) (power rounds : ℕ) (index : ℕ → ℕ) (i : ℕ)
    (ps : EntityMap)
    → AreSeparate world ps ms
    → AreSeparate world (attack_rounds others power rounds index i ps) ms
unfolding attack_rounds
attack_rounds-AreSeparate world ms others power zero index i ps s = s
attack_rounds-AreSeparate world ms others power (suc rounds) index i ps s =
    attack_rounds-AreSeparate world ms others power rounds index (i + 1) _
      (attack_one-AreSeparate world power ps ms (get_elem? others (index i)) s)

move_random_monsters-AreSeparate :
    (world : GameMap) (ps : EntityMap) (n : ℕ) (index : ℕ → ℕ) (dirs : ℕ → Direction)
    (ms : EntityMap)
    → AreSeparate world ps ms
    → AreSeparate world ps (move_random_monsters world ps n index dirs ms)
unfolding move_random_monsters
move_random_monsters-AreSeparate world ps n index dirs ms s = elim (Bool-cases (length ms == 0)) [
  | inl e ↦ rw e s
  | inr e ↦ rw e (move_rounds-AreSeparate world ps (min n (length ms)) index dirs 0 ms s)
]

perform_random_attacks-AreSeparate :
    (world : GameMap) (ms : EntityMap) (power n : ℕ) (index : ℕ → ℕ) (ps : EntityMap)
    → AreSeparate world ps ms
    → AreSeparate world (perform_random_attacks ms power n index ps) ms
unfolding perform_random_attacks
perform_random_attacks-AreSeparate world ms power n index ps s =
    elim (Bool-cases (length ms == 0)) [
      | inl e ↦ rw e s
      | inr e ↦ rw e (attack_rounds-AreSeparate world ms ms power (min n (length ms)) index 0 ps s)
    ]

monsters_turn-IsSeparate :
    (c : Settings) (r : TickDraws) (d : Dungeon) → IsSeparate d → IsSeparate (monsters_turn c r d)
unfolding monsters_turn
monsters_turn-IsSeparate c r d s = elim (Bool-cases (ltb 0 (length d.monsters))) [
  | inr e ↦ rw e s
  | inl e ↦
      let s' =
        move_random_monsters-AreSeparate d.game_map d.players r.move_count r.move_index
          r.move_direction d.monsters s in
      rw e (
        perform_random_attacks-AreSeparate d.game_map _ c.monster_default_attack r.attack_count
          r.attack_index d.players s')
]

after_commands-IsSeparate : (d : Dungeon) → IsSeparate d → IsSeparate (after_commands d)
unfolding after_commands pop_all
after_commands-IsSeparate d s =
    run_commands-IsSeparate d.command_queue (record d { command_queue = [] }) s

-- A tick, whatever commands are queued and whatever is drawn, keeps the entities apart: no two entities
-- share a position, dead ones included, and each stands in the map and on no barrier.
pub process_tick-IsSeparate :
    (c : Settings) (r : TickDraws) (d : Dungeon) → IsSeparate d → IsSeparate (process_tick c r d).0
unfolding process_tick
process_tick-IsSeparate c r d s =
    let s' = monsters_turn-IsSeparate c r (after_commands d) (after_commands-IsSeparate d s) in
    elim (Bool-cases (is_game_over (monsters_turn c r (after_commands d)))) [
      | inl e ↦ rw e s'
      | inr e ↦ rw e s'
    ]

spawn_players-IsSeparate :
    (c : Settings) (draw : ℕ → Position) (pids : List ℕ) (d : Dungeon) (n : ℕ)
    → IsSeparate d
    → IsSeparate (spawn_players c draw pids d n).0
unfolding spawn_players
spawn_players-IsSeparate c draw [] d n s = s
spawn_players-IsSeparate c draw (pid ∷ pids) d n s =
    spawn_players-IsSeparate c draw pids _ _
      (spawn_player c d.game_map d.players d.monsters draw pid n s)

spawn_monsters-IsSeparate :
    (c : Settings) (draw : ℕ → Position) (count : ℕ) (d : Dungeon) (n : ℕ)
    → IsSeparate d
    → IsSeparate (spawn_monsters c draw count d n).0
unfolding spawn_monsters
spawn_monsters-IsSeparate c draw zero d n s = s
spawn_monsters-IsSeparate c draw (suc count) d n s =
    spawn_monsters-IsSeparate c draw count _ _
      (spawn_monster c d.game_map d.players d.monsters draw d.mob_id_counter n s)

-- A new dungeon, whatever positions are drawn, has its entities apart.
pub new_dungeon-IsSeparate :
    (c : Settings) (draw : ℕ → Position) (world : GameMap) (pids : List ℕ)
    → IsSeparate (new_dungeon c draw world pids)
unfolding new_dungeon
new_dungeon-IsSeparate c draw world pids =
    let started = spawn_players c draw pids empty 0 in
    spawn_monsters-IsSeparate c draw (length pids * c.monsters_per_player) started.0 started.1
      (spawn_players-IsSeparate c draw pids empty 0 none_yet)
  where
    empty : Dungeon
    empty = record {
      game_map = world;
      players = [];
      monsters = [];
      command_queue = [];
      mob_id_counter = 0;
    }

    none_yet : AreSeparate world [] []
    none_yet = record {
      players_apart = tt;
      monsters_apart = tt;
      players_placed = tt;
      monsters_placed = tt;
      clear = tt;
    }
