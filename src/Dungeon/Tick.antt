-- ===== src/Dungeon/Tick.antt =====
-- What a tick leaves as it is.
use dungeon_crawler.Base.{
  ltb, ◌==◌, Bool-cases, Option-cases, length, get_elem?, ℕ, zero, suc, ◌+◌, min, ◌≡◌, refl, ◌∙◌,
  subst, ◌↔◌, inl, inr, true, false, Option, none, some, List, [], ◌∷◌,
}
use dungeon_crawler.Settings.{Settings}
use dungeon_crawler.Types.Direction.{Direction}
use dungeon_crawler.World.Position.{pos_add, position_offset_from_direction}
use dungeon_crawler.World.GameMap.{GameMap}
use dungeon_crawler.World.Entity.{Entity, is_alive, hurt}
use dungeon_crawler.Types.GameState.{DungeonSnapshot}
use dungeon_crawler.Dungeon.Shown.{Shows, AreDead, snapshot_of-Shows, is_game_over-AreDead}
use dungeon_crawler.Dungeon.Evolution.{
  Evolves, Evolves-refl, Evolves-trans, Evolves-modify, hurt-Ages, move_entity-Evolves,
}
use dungeon_crawler.Dungeon.EntityManager.{EntityMap, is_living, get_entity, find_closest_target}
use dungeon_crawler.Dungeon.Spawner.{is_available}
use dungeon_crawler.Dungeon.Monsters.{
  move_one, move_rounds, move_random_monsters, hit_target, attack_one, attack_rounds,
  perform_random_attacks,
}
use dungeon_crawler.Dungeon.{
  Command, attack_command, move_command, Dungeon, pop_all, attack_target, run_attack, run_move,
  run_command, run_commands, TickDraws, monsters_turn, is_game_over, after_commands, snapshot_of,
  process_tick,
}

-- The two maps of a dungeon.
abbrev pub DungeonEvolves : Dungeon → Dungeon → Type 0
DungeonEvolves d e =
    (e.game_map ≡ d.game_map)
    × Evolves d.players e.players
    × Evolves d.monsters e.monsters
    × (e.command_queue ≡ d.command_queue)

DungeonEvolves-refl : (d : Dungeon) → DungeonEvolves d d
DungeonEvolves-refl d = (refl, Evolves-refl d.players, Evolves-refl d.monsters, refl)

run_attack-DungeonEvolves :
    (damage : ℕ) (o : Option Entity) (d : Dungeon) → DungeonEvolves d (run_attack damage o d)
unfolding run_attack attack_target
run_attack-DungeonEvolves damage none d = DungeonEvolves-refl d
run_attack-DungeonEvolves damage (some e) d = elim (Bool-cases (is_alive e)) [
  | inr a ↦ rw a (DungeonEvolves-refl d)
  | inl a ↦
      rw a (elim (Option-cases (find_closest_target e.position e.info.radius_attack d.monsters)) [
        | inl t ↦ rw (t, attack_target) (DungeonEvolves-refl d)
        | inr (target, t) ↦
            rw (t, attack_target)
              (
                refl,
                Evolves-refl d.players,
                Evolves-modify target (hurt damage) d.monsters (hurt-Ages damage),
                refl,
              )
      ])
]

run_move-DungeonEvolves :
    (pid : ℕ) (dir : Direction) (o : Option Entity) (d : Dungeon)
    → DungeonEvolves d (run_move pid dir o d)
unfolding run_move
run_move-DungeonEvolves pid dir none d = DungeonEvolves-refl d
run_move-DungeonEvolves pid dir (some e) d =
    let p = pos_add e.position (position_offset_from_direction dir) in
    elim (Bool-cases (is_alive e)) [
      | inr a ↦ rw a (DungeonEvolves-refl d)
      | inl a ↦ rw a (elim (Bool-cases (is_available d.game_map d.players d.monsters p)) [
        | inr t ↦ rw t (DungeonEvolves-refl d)
        | inl t ↦
            rw t (refl, move_entity-Evolves pid dir p d.players, Evolves-refl d.monsters, refl)
      ])
    ]

run_command-DungeonEvolves : (q : Command) (d : Dungeon) → DungeonEvolves d (run_command q d)
unfolding run_command
run_command-DungeonEvolves (attack_command pid damage) d =
    run_attack-DungeonEvolves damage (get_entity pid d.players) d
run_command-DungeonEvolves (move_command pid dir) d =
    run_move-DungeonEvolves pid dir (get_entity pid d.players) d

run_commands-DungeonEvolves :
    (cs : List Command) (d : Dungeon) → DungeonEvolves d (run_commands cs d)
unfolding run_commands
run_commands-DungeonEvolves [] d = DungeonEvolves-refl d
run_commands-DungeonEvolves (q ∷ cs) d =
    let (same_map, ps, ms, queue) = run_command-DungeonEvolves q d in
    let (same_map', ps', ms', queue') = run_commands-DungeonEvolves cs (run_command q d) in
    (same_map' ∙ same_map, Evolves-trans _ _ _ ps ps', Evolves-trans _ _ _ ms ms', queue' ∙ queue)

move_one-Evolves :
    (world : GameMap) (ps : EntityMap) (dir : Direction) (ms : EntityMap) (o : Option (ℕ × Entity))
    → Evolves ms (move_one world ps dir ms o)
unfolding move_one
move_one-Evolves world ps dir ms none = Evolves-refl ms
move_one-Evolves world ps dir ms (some (id, e)) =
    let p = pos_add e.position (position_offset_from_direction dir) in
    elim (Bool-cases (is_alive e)) [
      | inr a ↦ rw a (Evolves-refl ms)
      | inl a ↦ rw a (elim (Bool-cases (is_available world ps ms p)) [
        | inr t ↦ rw t (Evolves-refl ms)
        | inl t ↦ rw t (move_entity-Evolves id dir p ms)
      ])
    ]

move_rounds-Evolves :
    (world : GameMap) (ps : EntityMap) (rounds : ℕ) (index : ℕ → ℕ) (dirs : ℕ → Direction) (i : ℕ)
    (ms : EntityMap)
    → Evolves ms (move_rounds world ps rounds index dirs i ms)
unfolding move_rounds
move_rounds-Evolves world ps zero index dirs i ms = Evolves-refl ms
move_rounds-Evolves world ps (suc rounds) index dirs i ms =
    Evolves-trans _ _ _ (move_one-Evolves world ps (dirs i) ms (get_elem? ms (index i)))
      (move_rounds-Evolves world ps rounds index dirs (i + 1) _)

hit_target-Evolves :
    (power : ℕ) (o : Option ℕ) (ps : EntityMap) → Evolves ps (hit_target power o ps)
unfolding hit_target
hit_target-Evolves power none ps = Evolves-refl ps
hit_target-Evolves power (some t) ps = elim (Bool-cases (is_living (get_entity t ps))) [
  | inl a ↦ rw a (Evolves-modify t (hurt power) ps (hurt-Ages power))
  | inr a ↦ rw a (Evolves-refl ps)
]

attack_one-Evolves :
    (power : ℕ) (ps : EntityMap) (o : Option (ℕ × Entity)) → Evolves ps (attack_one power ps o)
unfolding attack_one
attack_one-Evolves power ps none = Evolves-refl ps
attack_one-Evolves power ps (some (id, e)) = elim (Bool-cases (is_alive e)) [
  | inr a ↦ rw a (Evolves-refl ps)
  | inl a ↦
      rw a (hit_target-Evolves power (find_closest_target e.position e.info.radius_attack ps) ps)
]

attack_rounds-Evolves :
    (ms : EntityMap) (power rounds : ℕ) (index : ℕ → ℕ) (i : ℕ) (ps : EntityMap)
    → Evolves ps (attack_rounds ms power rounds index i ps)
unfolding attack_rounds
attack_rounds-Evolves ms power zero index i ps = Evolves-refl ps
attack_rounds-Evolves ms power (suc rounds) index i ps =
    Evolves-trans _ _ _ (attack_one-Evolves power ps (get_elem? ms (index i)))
      (attack_rounds-Evolves ms power rounds index (i + 1) _)

move_random_monsters-Evolves :
    (world : GameMap) (ps : EntityMap) (n : ℕ) (index : ℕ → ℕ) (dirs : ℕ → Direction)
    (ms : EntityMap)
    → Evolves ms (move_random_monsters world ps n index dirs ms)
unfolding move_random_monsters
move_random_monsters-Evolves world ps n index dirs ms = elim (Bool-cases (length ms == 0)) [
  | inl e ↦ rw e (Evolves-refl ms)
  | inr e ↦ rw e (move_rounds-Evolves world ps (min n (length ms)) index dirs 0 ms)
]

perform_random_attacks-Evolves :
    (ms : EntityMap) (power n : ℕ) (index : ℕ → ℕ) (ps : EntityMap)
    → Evolves ps (perform_random_attacks ms power n index ps)
unfolding perform_random_attacks
perform_random_attacks-Evolves ms power n index ps = elim (Bool-cases (length ms == 0)) [
  | inl e ↦ rw e (Evolves-refl ps)
  | inr e ↦ rw e (attack_rounds-Evolves ms power (min n (length ms)) index 0 ps)
]

monsters_turn-DungeonEvolves :
    (c : Settings) (r : TickDraws) (d : Dungeon) → DungeonEvolves d (monsters_turn c r d)
unfolding monsters_turn
monsters_turn-DungeonEvolves c r d = elim (Bool-cases (ltb 0 (length d.monsters))) [
  | inr e ↦ rw e (DungeonEvolves-refl d)
  | inl e ↦ rw e (
    refl,
    perform_random_attacks-Evolves _ c.monster_default_attack r.attack_count r.attack_index
        d.players,
    move_random_monsters-Evolves d.game_map d.players r.move_count r.move_index r.move_direction
        d.monsters,
    refl,
  )
]

-- What a tick gives at the end is right about the dungeon that it leaves.
abbrev IsRight : Dungeon → Option DungeonSnapshot → Type 0
IsRight d snapshot =
    ((snapshot ≡ none) ↔ AreDead d.players)
    × ((s : DungeonSnapshot) → snapshot ≡ some s → Shows d s)

over-IsRight : (d : Dungeon) → is_game_over d ≡ true → IsRight d none
over-IsRight d e = ((λ h. (is_game_over-AreDead d).0 e, λ h. refl), λ s h. absurd (cc h))

snapshot_of-IsRight : (d : Dungeon) → is_game_over d ≡ false → IsRight d (some (snapshot_of d))
snapshot_of-IsRight d e = (
  (λ h. absurd (cc h), λ h. absurd (cc (e, (is_game_over-AreDead d).1 h))),
  λ s h. subst (Shows d) (cc h) (snapshot_of-Shows d),
)

-- A tick empties the queue and keeps the map. It neither adds nor removes a player or a monster, and heals or
-- revives none. It gives no snapshot exactly if every player is dead; and a snapshot that it gives shows the dungeon as
-- the tick leaves it: the corners and barriers of the map, and every player and every monster with its id, place and
-- health, and whether it lives.
pub process_tick_lem :
    (c : Settings) (r : TickDraws) (d : Dungeon)
    → let (d', snapshot) = process_tick c r d in
      (d'.command_queue ≡ [])
      × (d'.game_map ≡ d.game_map)
      × Evolves d.players d'.players
      × Evolves d.monsters d'.monsters
      × ((snapshot ≡ none) ↔ AreDead d'.players)
      × ((s : DungeonSnapshot) → snapshot ≡ some s → Shows d' s)
unfolding process_tick after_commands pop_all
process_tick_lem c r d =
    let cleared : Dungeon = record d { command_queue = [] } in
    let acted = run_commands d.command_queue cleared in
    let (m1, p1, q1, e1) = run_commands-DungeonEvolves d.command_queue cleared in
    let (m2, p2, q2, e2) = monsters_turn-DungeonEvolves c r acted in
    let ps = Evolves-trans _ _ _ p1 p2 in
    let ms = Evolves-trans _ _ _ q1 q2 in
    let d' = monsters_turn c r acted in
    elim (Bool-cases (is_game_over d')) [
      | inl e ↦
          let (over, shown) = over-IsRight d' e in rw e (e2 ∙ e1, m2 ∙ m1, ps, ms, over, shown)
      | inr e ↦
          let (over, shown) = snapshot_of-IsRight d' e in
          rw e (e2 ∙ e1, m2 ∙ m1, ps, ms, over, shown)
    ]
