-- ===== src/Dungeon/Occupancy/Steps.antt =====
-- Every change that a dungeon makes to its entities keeps them apart.
use dungeon_crawler.Base.{
  Bool-cases, find, contains, contains-find, ℕ, ◌≡◌, refl, inl, inr, true, false, none, arith,
}
use dungeon_crawler.Settings.{Settings}
use dungeon_crawler.Types.Direction.{Direction}
use dungeon_crawler.World.Position.{Position}
use dungeon_crawler.World.GameMap.{GameMap, map_available}
use dungeon_crawler.World.Entity.{EntityType, player, monster, Entity, new_entity, hurt}
use dungeon_crawler.Dungeon.EntityManager.{
  EntityMap, modify, add_entity, is_living, move_entity, is_occupied, add_entity_new,
}
use dungeon_crawler.Dungeon.Spawner.{is_available, spawn_entity, spawn_known, spawn_entity_lem}
use dungeon_crawler.Dungeon.{Dungeon}
use dungeon_crawler.Dungeon.Occupancy.Cells.{
  IsApart, IsPlaced, IsClear, modify-IsApart, modify-IsPlaced, modify-IsClear, modify-IsClear_right,
  move-IsApart, move-IsPlaced, move-IsClear, move-IsClear_right, assign-IsApart, assign-IsPlaced,
  assign-IsClear, assign-IsClear_right,
}

pub record AreSeparate (world : GameMap) (players monsters : EntityMap) : Type 0 where
  pub players_apart : IsApart players
  pub monsters_apart : IsApart monsters
  pub players_placed : IsPlaced world players
  pub monsters_placed : IsPlaced world monsters
  pub clear : IsClear players monsters

abbrev pub IsSeparate : Dungeon → Type 0
IsSeparate d = AreSeparate d.game_map d.players d.monsters

hurt_still : (damage : ℕ) (e : Entity) → (hurt damage e).position ≡ e.position
unfolding hurt
hurt_still damage e = ground arith

pub hurt_players :
    (world : GameMap) (ps ms : EntityMap) (k damage : ℕ)
    → AreSeparate world ps ms
    → AreSeparate world (modify k (hurt damage) ps) ms
hurt_players world ps ms k damage s = record {
  players_apart = modify-IsApart (hurt damage) (hurt_still damage) k ps s.players_apart;
  monsters_apart = s.monsters_apart;
  players_placed = modify-IsPlaced (hurt damage) (hurt_still damage) world k ps s.players_placed;
  monsters_placed = s.monsters_placed;
  clear = modify-IsClear (hurt damage) (hurt_still damage) k ps ms s.clear;
}

pub hurt_monsters :
    (world : GameMap) (ps ms : EntityMap) (k damage : ℕ)
    → AreSeparate world ps ms
    → AreSeparate world ps (modify k (hurt damage) ms)
hurt_monsters world ps ms k damage s = record {
  players_apart = s.players_apart;
  monsters_apart = modify-IsApart (hurt damage) (hurt_still damage) k ms s.monsters_apart;
  players_placed = s.players_placed;
  monsters_placed = modify-IsPlaced (hurt damage) (hurt_still damage) world k ms s.monsters_placed;
  clear = modify-IsClear_right (hurt damage) (hurt_still damage) k ps ms s.clear;
}

-- What the collision checker has tested.
available_parts :
    (world : GameMap) (ps ms : EntityMap) (p : Position)
    → is_available world ps ms p ≡ true
    → (map_available world p ≡ true) × (is_occupied p ps ≡ false) × (is_occupied p ms ≡ false)
unfolding is_available
available_parts world ps ms p h = ground arith

pub move_players :
    (world : GameMap) (ps ms : EntityMap) (k : ℕ) (dir : Direction) (p : Position)
    → is_available world ps ms p ≡ true
    → AreSeparate world ps ms
    → AreSeparate world (move_entity k dir p ps).0 ms
unfolding move_entity
move_players world ps ms k dir p h s =
    let (a, b, c) = available_parts world ps ms p h in
    elim (Bool-cases (is_living (find k ps))) [
      | inr e ↦ rw (e, move_entity) s
      | inl e ↦
          rw (e, move_entity)
            (record {
              players_apart = move-IsApart p k ps b s.players_apart;
              monsters_apart = s.monsters_apart;
              players_placed = move-IsPlaced p world k ps a s.players_placed;
              monsters_placed = s.monsters_placed;
              clear = move-IsClear p k ps ms c s.clear;
            })
    ]

pub move_monsters :
    (world : GameMap) (ps ms : EntityMap) (k : ℕ) (dir : Direction) (p : Position)
    → is_available world ps ms p ≡ true
    → AreSeparate world ps ms
    → AreSeparate world ps (move_entity k dir p ms).0
unfolding move_entity
move_monsters world ps ms k dir p h s =
    let (a, b, c) = available_parts world ps ms p h in
    elim (Bool-cases (is_living (find k ms))) [
      | inr e ↦ rw (e, move_entity) s
      | inl e ↦
          rw (e, move_entity)
            (record {
              players_apart = s.players_apart;
              monsters_apart = move-IsApart p k ms c s.monsters_apart;
              players_placed = s.players_placed;
              monsters_placed = move-IsPlaced p world k ms a s.monsters_placed;
              clear = move-IsClear_right p k ps ms b s.clear;
            })
    ]

new_entity_position :
    (c : Settings) (kind : EntityType) (id : ℕ) (p : Position)
    → (new_entity c kind id p).position ≡ p
unfolding new_entity
new_entity_position c player id p = refl
new_entity_position c monster id p = refl

missing : (k : ℕ) (m : EntityMap) → contains k m ≡ false → find k m ≡ none
missing k m h = ground (arith, contains-find k m)

-- A spawn in either map, where `free` is the checker over both.
module _ (c : Settings) (world : GameMap) (ps ms : EntityMap) (draw : ℕ → Position) (id n : ℕ)
    (s : AreSeparate world ps ms) where
  spawn_player_at :
      (p : Position)
      → contains id ps ≡ false
      → is_available world ps ms p ≡ true
      → AreSeparate world (add_entity c player id p ps).0 ms
  spawn_player_at p new free =
      let (a, b, d) = available_parts world ps ms p free in
      let e = new_entity c player id p in
      let at : e.position ≡ p = new_entity_position c player id p in
      let gone = missing id ps new in
      rw (add_entity_new c player id p ps new) (record {
        players_apart = assign-IsApart id e ps gone (rw at b) s.players_apart;
        monsters_apart = s.monsters_apart;
        players_placed = assign-IsPlaced id e world ps (rw at a) s.players_placed;
        monsters_placed = s.monsters_placed;
        clear = assign-IsClear id e ps ms (rw at d) s.clear;
      })

  spawn_monster_at :
      (p : Position)
      → contains id ms ≡ false
      → is_available world ps ms p ≡ true
      → AreSeparate world ps (add_entity c monster id p ms).0
  spawn_monster_at p new free =
      let (a, b, d) = available_parts world ps ms p free in
      let e = new_entity c monster id p in
      let at : e.position ≡ p = new_entity_position c monster id p in
      let gone = missing id ms new in
      rw (add_entity_new c monster id p ms new) (record {
        players_apart = s.players_apart;
        monsters_apart = assign-IsApart id e ms gone (rw at d) s.monsters_apart;
        players_placed = s.players_placed;
        monsters_placed = assign-IsPlaced id e world ms (rw at a) s.monsters_placed;
        clear = assign-IsClear_right id e ps ms gone (rw at b) s.clear;
      })

  pub spawn_player :
      AreSeparate world (spawn_entity c player (is_available world ps ms) draw ps id n).entities ms
  spawn_player = elim (Bool-cases (contains id ps)) [
    | inl known ↦ rw (spawn_known c player (is_available world ps ms) draw ps id n known) s
    | inr new ↦ elim (spawn_entity_lem c player (is_available world ps ms) draw ps id n new) [
      | inl (_, _, same) ↦ rw same s
      | inr (k, _, _, free, _, same) ↦ rw same (spawn_player_at (draw k) new free)
    ]
  ]

  pub spawn_monster :
      AreSeparate world ps (spawn_entity c monster (is_available world ps ms) draw ms id n).entities
  spawn_monster = elim (Bool-cases (contains id ms)) [
    | inl known ↦ rw (spawn_known c monster (is_available world ps ms) draw ms id n known) s
    | inr new ↦ elim (spawn_entity_lem c monster (is_available world ps ms) draw ms id n new) [
      | inl (_, _, same) ↦ rw same s
      | inr (k, _, _, free, _, same) ↦ rw same (spawn_monster_at (draw k) new free)
    ]
  ]
