-- ===== src/Tests.antt =====
-- Test data, tests, and the theorems at concrete inputs.
mod Samples
mod Scores
mod Rules
mod Profiles
mod Services
mod Sessions
mod Worlds
mod Systems
mod Flows
mod Starts
mod Regulars
