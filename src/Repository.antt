-- ===== src/Repository.antt =====
-- internal/repository: the rows and the enumerations.
pub mod Models
pub mod Queries
pub mod Scan
