-- ===== src/Processor.antt =====
-- src/execution/processor.rs: the execution of a block.
pub mod Types
pub mod Execute
pub mod Checks
pub mod Gas
pub mod Blocks
pub mod Accepted
mod Tests
