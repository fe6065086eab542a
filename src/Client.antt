-- ===== src/Client.antt =====
-- src/client/ui: from what the player types to the message that is sent.
pub mod Text
pub mod Commands
pub mod Keys
pub mod Accepted
pub mod Map
pub mod Messages
mod Tests
