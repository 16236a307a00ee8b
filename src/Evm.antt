-- ===== src/Evm.antt =====
-- src/execution/evm: the instructions of the virtual machine.
pub mod Tables
pub mod OpCodes
pub mod Properties
pub mod GasCosts
pub mod Requirements
pub mod Jumps
pub mod Reached
pub mod Memory
pub mod Bytes
pub mod Loads
pub mod Copies
pub mod Parts
pub mod Copied
pub mod Stack
pub mod Instructions
pub mod Heights
pub mod Power
pub mod Log
mod Tests
mod MemoryTests
