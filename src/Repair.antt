-- ===== src/Repair.antt =====
-- The repair engine of src/repair.c.
pub mod Types
pub mod Health
pub mod Replicate
pub mod HealthLaws
pub mod ChooseLaws
pub mod ReplicateLaws
pub mod File
pub mod FileLaws
pub mod Rebalance
pub mod MoveLaws
pub mod BalanceLaws
pub mod BalanceEnds
pub mod BalanceRun
pub mod System
pub mod SystemLaws
mod BalanceTests
mod Tests
