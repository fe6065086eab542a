-- ===== src/Net.antt =====
-- src/server/network and src/client/network: the two ends of a connection.
pub mod Session
pub mod Client
pub mod Pipeline
pub mod Tests
