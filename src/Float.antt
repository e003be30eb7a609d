-- ===== src/Float.antt =====
-- Go's float64.
pub mod Round
pub mod Ops
pub mod Order
pub mod Monotone
pub mod MinMax
pub mod Literals
pub mod NotNan
pub mod Enough
