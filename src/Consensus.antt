-- ===== src/Consensus.antt =====
-- src/consensus: what a block and its header must satisfy.
pub mod Types
pub mod Fees
pub mod Eip1559
pub mod Headers
pub mod Difficulty
pub mod Bomb
pub mod Rewards
pub mod Transactions
pub mod Ommers
pub mod Blocks
pub mod Rules
pub mod Canonical
pub mod Accepted
pub mod Mined
mod Tests
