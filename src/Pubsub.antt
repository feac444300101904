-- ===== src/Pubsub.antt =====
-- internal/pubsub/hub.go: who is subscribed to what, and who gets a message.
pub mod Registry
pub mod Glob
pub mod Hub
mod Runs
