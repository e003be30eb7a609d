-- ===== src/Api.antt =====
-- internal/api and internal/pkg/middleware: requests, responses, handlers and the router.
pub mod Http
pub mod Users
pub mod Transactions
pub mod Router
pub mod Answers
pub mod Keeps
