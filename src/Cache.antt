-- ===== src/Cache.antt =====
-- internal/cache: the cache in front of the store.
pub mod Store
pub mod Cached
pub mod Writes
pub mod Commit
mod Sample
mod Runs
