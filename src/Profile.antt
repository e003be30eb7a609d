-- ===== src/Profile.antt =====
-- internal/pkg/helpers/profile_update.go: the in-memory profile after a transaction.
pub mod Update
pub mod Counts
pub mod Behaviour
