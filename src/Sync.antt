-- ===== src/Sync.antt =====
-- src/stagedsync/mod.rs and stage.rs: the loop over the stages.
pub mod Types
pub mod Loop
pub mod Outcomes
pub mod Kept
pub mod Unwound
pub mod Completed
mod Tests
