-- ===== src/Dungeon/Shown.antt =====
-- src/server/domain/dungeon/create_game_state.cpp: what a snapshot tells of a dungeon, entity by entity.
use dungeon_crawler.Base.{ℕ, ◌≡◌, refl, ◌↔◌, ◌⊎◌, inl, inr, true, List, [], ◌∷◌, map, arith}
use dungeon_crawler.Types.GameState.{EntitySnapshot, BarrierSnapshot, DungeonSnapshot}
use dungeon_crawler.World.Position.{Position, cast_u64}
use dungeon_crawler.World.Entity.{
  EntityState, alive, dead, player, monster, Entity, state_is_alive, is_alive,
}
use dungeon_crawler.Dungeon.Snapshot.{
  type_code, state_code, make_entity_snapshot, make_barrier_snapshot, create_game_state_dto,
}
use dungeon_crawler.Dungeon.EntityManager.{EntityMap}
use dungeon_crawler.Dungeon.{Dungeon, all_dead, is_game_over, snapshot_of}

-- The entity is shown as one of this kind, with its id, place and health, and whether it lives.
abbrev pub IsShown : ℕ → ℕ × Entity → EntitySnapshot → Type 0
IsShown kind (id, e) s =
    (s.type ≡ kind)
    × (s.id ≡ id)
    × (e.state ≡ alive → s.state ≡ 0)
    × (e.state ≡ dead → s.state ≡ 1)
    × (s.pos_x ≡ cast_u64 e.position.x)
    × (s.pos_y ≡ cast_u64 e.position.y)
    × (s.hp ≡ e.info.health)

abbrev pub AreShown : ℕ → EntityMap → List EntitySnapshot → Type 0
AreShown kind [] [] = Unit
AreShown kind [] (s ∷ ss) = ⊥
AreShown kind (e ∷ m) [] = ⊥
AreShown kind (e ∷ m) (s ∷ ss) = IsShown kind e s × AreShown kind m ss

abbrev pub AreBarriersShown : List Position → List BarrierSnapshot → Type 0
AreBarriersShown [] [] = Unit
AreBarriersShown [] (s ∷ ss) = ⊥
AreBarriersShown (p ∷ ps) [] = ⊥
AreBarriersShown (p ∷ ps) (s ∷ ss) =
    (s.pos_x ≡ cast_u64 p.x) × (s.pos_y ≡ cast_u64 p.y) × AreBarriersShown ps ss

-- The players are kind 0, the monsters kind 1.
abbrev pub Shows : Dungeon → DungeonSnapshot → Type 0
Shows d s =
    (s.game_map.blc_x ≡ cast_u64 d.game_map.map_size.bottom_left_corner.x)
    × (s.game_map.blc_y ≡ cast_u64 d.game_map.map_size.bottom_left_corner.y)
    × (s.game_map.trc_x ≡ cast_u64 d.game_map.map_size.top_right_corner.x)
    × (s.game_map.trc_y ≡ cast_u64 d.game_map.map_size.top_right_corner.y)
    × AreBarriersShown d.game_map.barriers s.game_map.barriers
    × AreShown 0 d.players s.players
    × AreShown 1 d.monsters s.mobs

abbrev pub AreDead : EntityMap → Type 0
AreDead [] = Unit
AreDead ((id, e) ∷ m) = (e.state ≡ dead) × AreDead m

make_player-IsShown : (e : ℕ × Entity) → IsShown 0 e (make_entity_snapshot player e)
unfolding make_entity_snapshot is_alive state_is_alive type_code state_code
make_player-IsShown (id, e) =
    (refl, refl, λ h. ground (arith, h), λ h. ground (arith, h), refl, refl, refl)

make_monster-IsShown : (e : ℕ × Entity) → IsShown 1 e (make_entity_snapshot monster e)
unfolding make_entity_snapshot is_alive state_is_alive type_code state_code
make_monster-IsShown (id, e) =
    (refl, refl, λ h. ground (arith, h), λ h. ground (arith, h), refl, refl, refl)

players-AreShown : (m : EntityMap) → AreShown 0 m (map (make_entity_snapshot player) m)
players-AreShown [] = tt
players-AreShown (e ∷ m) = (make_player-IsShown e, players-AreShown m)

monsters-AreShown : (m : EntityMap) → AreShown 1 m (map (make_entity_snapshot monster) m)
monsters-AreShown [] = tt
monsters-AreShown (e ∷ m) = (make_monster-IsShown e, monsters-AreShown m)

barriers-AreShown : (ps : List Position) → AreBarriersShown ps (map make_barrier_snapshot ps)
unfolding make_barrier_snapshot
barriers-AreShown [] = tt
barriers-AreShown (p ∷ ps) = (refl, refl, barriers-AreShown ps)

pub snapshot_of-Shows : (d : Dungeon) → Shows d (snapshot_of d)
unfolding snapshot_of create_game_state_dto
snapshot_of-Shows d = (
  refl,
  refl,
  refl,
  refl,
  barriers-AreShown d.game_map.barriers,
  players-AreShown d.players,
  monsters-AreShown d.monsters,
)

EntityState-cases : (s : EntityState) → (s ≡ alive) ⊎ (s ≡ dead)
EntityState-cases alive = inl refl
EntityState-cases dead = inr refl

all_dead-AreDead : (m : EntityMap) → (all_dead m ≡ true) ↔ AreDead m
unfolding all_dead is_alive state_is_alive
all_dead-AreDead [] = (λ h. tt, λ h. refl)
all_dead-AreDead ((id, e) ∷ m) = elim (EntityState-cases e.state) [
  | inl a ↦ (λ h. absurd (ground (arith, h, a)), λ h. absurd (ground (arith, h.0, a)))
  | inr a ↦ (
    λ h. (a, (all_dead-AreDead m).0 (ground (arith, h, a))),
    λ h. ground (arith, a, (all_dead-AreDead m).1 h.1),
  )
]

pub is_game_over-AreDead : (d : Dungeon) → (is_game_over d ≡ true) ↔ AreDead d.players
unfolding is_game_over
is_game_over-AreDead d = all_dead-AreDead d.players
