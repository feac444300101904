-- ===== src/Leader.antt =====
-- internal/leader: the election.
pub mod Election
mod Runs
