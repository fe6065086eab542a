-- ===== src/Game.antt =====
-- The games that run: which dungeon each player is in, and the handlers of src/server/app/game_manager.cpp.
pub mod Registry
pub mod Manager
pub mod Ticking
mod Tests
