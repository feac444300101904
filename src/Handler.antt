-- ===== src/Handler.antt =====
-- internal/handler: the commands.
pub mod Arguments
pub mod Keys
pub mod Backend
pub mod Auth
pub mod Connection
pub mod Dispatch
pub mod Transaction
pub mod Client
pub mod Pubsub
pub mod Sample
mod Runs
