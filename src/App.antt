-- ===== src/App.antt =====
-- src/server/app: the sessions of the players, and the way from a message to an event.
pub mod Sessions
pub mod Connections
pub mod Router
pub mod Sender
mod Tests
