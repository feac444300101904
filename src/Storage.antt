-- ===== src/Storage.antt =====
-- internal/storage: the tables with the statements on them, and what is computed beside the SQL.
pub mod Tables
pub mod Keys
pub mod Strings
pub mod Lists
pub mod HyperLogLog
pub mod BitField
mod Runs
mod TableRuns
