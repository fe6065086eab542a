-- ===== src/World/Entity.antt =====
-- src/server/domain/entity: entity_health.h, entity_types.h, entity.h. Players and monsters are
-- both an entity with an id; they differ in the settings that they start from.
use dungeon_crawler.Base.{ltb, ◌==◌, if◌then◌else◌, ℕ, ◌-◌, ◌≡◌, Bool, true, false, ◌&&◌, arith}
use dungeon_crawler.Settings.{Settings}
use dungeon_crawler.World.Position.{Position}

pub data EntityState : Type 0 where
  alive dead : EntityState

pub data EntityType : Type 0 where
  player monster : EntityType

-- `Health::operator-=`
unfoldable pub health_sub : ℕ → ℕ → ℕ
health_sub hp damage = if ltb hp damage then 0 else hp - damage

pub record EntityData : Type 0 where
  pub health : ℕ
  pub radius_attack : ℕ
  pub radius_view : ℕ

pub record Entity : Type 0 where
  pub id : ℕ
  pub position : Position
  pub info : EntityData
  pub state : EntityState

unfoldable pub cfg_player_data : Settings → EntityData
cfg_player_data c = record {
  health = c.player_default_hp;
  radius_attack = c.default_radius_attack;
  radius_view = c.default_radius_view;
}

unfoldable pub cfg_monster_data : Settings → EntityData
cfg_monster_data c = record {
  health = c.monster_default_hp;
  radius_attack = c.default_radius_attack;
  radius_view = c.default_radius_view;
}

-- `EntityType{id, pos}`, for a `PlayerEntity` and a `MonsterEntity`.
unfoldable pub new_entity : Settings → EntityType → ℕ → Position → Entity
unfolding cfg_player_data cfg_monster_data
new_entity c player id spot = record {
  id = id;
  position = spot;
  info = cfg_player_data c;
  state = alive;
}
new_entity c monster id spot = record {
  id = id;
  position = spot;
  info = cfg_monster_data c;
  state = alive;
}

unfoldable pub state_is_alive : EntityState → Bool
state_is_alive alive = true
state_is_alive dead = false

unfoldable pub is_alive : Entity → Bool
unfolding state_is_alive
is_alive e = state_is_alive e.state

unfoldable pub set_position : Position → Entity → Entity
set_position p e = record e { position = p }

-- `Entity::damage`
unfoldable pub hurt : ℕ → Entity → Entity
unfolding health_sub
hurt damage e =
    let hp = health_sub e.info.health damage in
    let hit = record e { info = record e.info { health = hp } } in
    if hp == 0 then record hit { state = dead } else hit

-- An entity without health is dead.
abbrev pub IsSound : Entity → Type 0
IsSound e = e.info.health ≡ 0 → e.state ≡ dead

-- Of an entity that is dead if it has no health: damage takes its amount off the health and stops
-- at zero; what it brings to zero is dead, no damage brings anything back to life or moves it,
-- and one that is alive survives exactly less damage than its health.
pub hurt_lem :
    (damage : ℕ) (e : Entity)
    → IsSound e
    → ((hurt damage e).info.health ≡ e.info.health - damage)
      × IsSound (hurt damage e)
      × (is_alive (hurt damage e) ≡ (is_alive e && ltb damage e.info.health))
      × ((hurt damage e).position ≡ e.position)
      × ((hurt damage e).id ≡ e.id)
unfolding hurt is_alive
hurt_lem damage e s = ground arith
