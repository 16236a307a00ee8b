-- ===== src/State.antt =====
-- src/state: the state of a block under execution and its journal.
pub mod Types
pub mod Objects
pub mod Accounts
pub mod Access
pub mod Slots
pub mod Journal
pub mod Extends
pub mod Undo
pub mod Runs
pub mod Revert
pub mod Answers
pub mod Effects
pub mod Balances
pub mod Lives
mod Tests
