-- ===== src/World.antt =====
-- The world of a dungeon: src/server/domain/map and src/server/domain/entity.
pub mod Position
pub mod Distance
pub mod GameMap
pub mod Entity
mod Tests
