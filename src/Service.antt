-- ===== src/Service.antt =====
-- internal/service: the transaction service and the user service.
pub mod Environment
pub mod Transaction
pub mod Bulk
pub mod Ledger
pub mod Session
pub mod Keeps
