-- ===== src/Evm/OpCodes/Machine.antt =====
-- src/execution/evm/opcode.rs: the numbers of the instructions for the stack, memory, storage, jumps and calls.
use martinez.Base.{ℕ, ◌+◌}

abbrev pub op_pop : ℕ
op_pop = 0x50

abbrev pub op_mload : ℕ
op_mload = 0x51

abbrev pub op_mstore : ℕ
op_mstore = 0x52

abbrev pub op_mstore8 : ℕ
op_mstore8 = 0x53

abbrev pub op_sload : ℕ
op_sload = 0x54

abbrev pub op_sstore : ℕ
op_sstore = 0x55

abbrev pub op_jump : ℕ
op_jump = 0x56

abbrev pub op_jumpi : ℕ
op_jumpi = 0x57

abbrev pub op_pc : ℕ
op_pc = 0x58

abbrev pub op_msize : ℕ
op_msize = 0x59

abbrev pub op_gas : ℕ
op_gas = 0x5a

abbrev pub op_jumpdest : ℕ
op_jumpdest = 0x5b

abbrev pub op_create : ℕ
op_create = 0xf0

abbrev pub op_call : ℕ
op_call = 0xf1

abbrev pub op_callcode : ℕ
op_callcode = 0xf2

abbrev pub op_return : ℕ
op_return = 0xf3

abbrev pub op_delegatecall : ℕ
op_delegatecall = 0xf4

abbrev pub op_create2 : ℕ
op_create2 = 0xf5

abbrev pub op_staticcall : ℕ
op_staticcall = 0xfa

abbrev pub op_revert : ℕ
op_revert = 0xfd

abbrev pub op_invalid : ℕ
op_invalid = 0xfe

abbrev pub op_selfdestruct : ℕ
op_selfdestruct = 0xff

-- PUSH1 to PUSH32.
abbrev pub op_push : ℕ → ℕ
op_push n = 0x5f + n

-- DUP1 to DUP16.
abbrev pub op_dup : ℕ → ℕ
op_dup n = 0x7f + n

-- SWAP1 to SWAP16.
abbrev pub op_swap : ℕ → ℕ
op_swap n = 0x8f + n

-- LOG0 to LOG4.
abbrev pub op_log : ℕ → ℕ
op_log n = 0xa0 + n
