-- ===== src/Risk.antt =====
-- internal/pkg/helpers/txn.go: the risk of a transaction, factor by factor, and the decision.
pub mod Factors
pub mod Score
pub mod Confidence
pub mod Frequency
pub mod TimeOfDay
pub mod NewMode
pub mod ZScore
pub mod Amount
pub mod Total
pub mod Worst
pub mod Decision
pub mod Triggers
pub mod Overflow
pub mod Limits
