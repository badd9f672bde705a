-- ===== src/Scheduler.antt =====
-- crates/reprocut-engine/src/scheduler.rs: workers that evaluate a ranked frontier.
pub mod Worker
pub mod Invariant
pub mod Moves
pub mod Safety
pub mod Outcome
pub mod Progress
pub mod Plans
pub mod Lowest
mod Tests
