-- ===== src/Store.antt =====
-- src/state/in_memory_state.rs: a database in memory, and what a block state writes to one.
pub mod Types
pub mod Updates
pub mod Write
pub mod Unwind
pub mod Loops
pub mod Leaves
pub mod Reads
pub mod Blocks
pub mod Chain
pub mod Canonical
mod Tests
