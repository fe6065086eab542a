-- ===== src/Dungeon/Occupancy.antt =====
-- No two entities of a dungeon share a position, and none stands outside the map or on a barrier.
pub mod Cells
pub mod Steps
pub mod Ticks
