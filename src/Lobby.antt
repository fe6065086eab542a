-- ===== src/Lobby.antt =====
-- src/server/domain/lobby: lobbies, their registry, and the manager that serves the requests.
pub mod Room
pub mod Registry
pub mod Manager
mod Tests
