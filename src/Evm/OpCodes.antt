-- ===== src/Evm/OpCodes.antt =====
-- src/execution/evm/opcode.rs: the numbers of the instructions.
mod Compute
mod Environment
mod Machine
pub use Compute.*
pub use Environment.*
pub use Machine.*
