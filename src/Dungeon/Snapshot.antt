-- ===== src/Dungeon/Snapshot.antt =====
-- src/server/domain/dungeon/dungeon_state.h and create_game_state.cpp.
use dungeon_crawler.Base.{ℕ, Bool, true, false, map}
use dungeon_crawler.Types.GameState.{EntitySnapshot, BarrierSnapshot, DungeonSnapshot}
use dungeon_crawler.World.Position.{Position, cast_u64}
use dungeon_crawler.World.GameMap.{GameMap}
use dungeon_crawler.World.Entity.{EntityType, player, monster, Entity, is_alive}
use dungeon_crawler.Dungeon.EntityManager.{EntityMap}

pub record DungeonState : Type 0 where
  pub game_map : GameMap
  pub players : EntityMap
  pub monsters : EntityMap

-- `static_cast<uint8_t>` of an `EntityType`
unfoldable pub type_code : EntityType → ℕ
type_code player = 0
type_code monster = 1

unfoldable pub state_code : Bool → ℕ
state_code true = 0
state_code false = 1

-- `make_entity_snapshot`
unfoldable pub make_entity_snapshot : EntityType → ℕ × Entity → EntitySnapshot
unfolding type_code state_code is_alive cast_u64
make_entity_snapshot kind (id, e) = record {
  type = type_code kind;
  state = state_code (is_alive e);
  id = id;
  pos_x = cast_u64 e.position.x;
  pos_y = cast_u64 e.position.y;
  hp = e.info.health;
}

unfoldable pub make_barrier_snapshot : Position → BarrierSnapshot
unfolding cast_u64
make_barrier_snapshot p = record { pos_x = cast_u64 p.x; pos_y = cast_u64 p.y }

unfoldable pub create_game_state_dto : DungeonState → DungeonSnapshot
unfolding make_entity_snapshot make_barrier_snapshot
create_game_state_dto s = record {
  game_map = record {
    blc_x = cast_u64 s.game_map.map_size.bottom_left_corner.x;
    blc_y = cast_u64 s.game_map.map_size.bottom_left_corner.y;
    trc_x = cast_u64 s.game_map.map_size.top_right_corner.x;
    trc_y = cast_u64 s.game_map.map_size.top_right_corner.y;
    barriers = map make_barrier_snapshot s.game_map.barriers;
  };
  players = map (make_entity_snapshot player) s.players;
  mobs = map (make_entity_snapshot monster) s.monsters;
}
