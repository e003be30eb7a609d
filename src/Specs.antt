-- ===== src/Specs.antt =====
-- internal/pkg/specs and internal/pkg/errors: requests, responses and errors.
pub mod Error
pub mod Txn
pub mod User
