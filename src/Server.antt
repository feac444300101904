-- ===== src/Server.antt =====
-- internal/server: the connections.
pub mod Client
pub mod Session
mod Runs
