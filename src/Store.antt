-- ===== src/Store.antt =====
-- The database: the statements of internal/repository/*.sql.go, run on tables in memory.
pub mod Tables
pub mod Transactions
pub mod Profiles
pub mod Users
pub mod Interfaces
pub mod Inserts
pub mod Invariant
pub mod Lookup
pub mod Rewrites
pub mod Upserts
pub mod Statistics
pub mod Sanity
pub mod Refresh
pub mod Rebuilt
pub mod Learns
