-- ===== src/Helpers.antt =====
-- internal/pkg/helpers/job_helper.go and type-changers.go, which nothing calls.
pub mod Jobs
pub mod Conversions
