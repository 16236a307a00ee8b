-- ===== src/Evm/OpCodes/Compute.antt =====
-- src/execution/evm/opcode.rs: the numbers of the instructions for arithmetic, comparison, bits and hashing.
use martinez.Base.{ℕ}

abbrev pub op_stop : ℕ
op_stop = 0x00

abbrev pub op_add : ℕ
op_add = 0x01

abbrev pub op_mul : ℕ
op_mul = 0x02

abbrev pub op_sub : ℕ
op_sub = 0x03

abbrev pub op_div : ℕ
op_div = 0x04

abbrev pub op_sdiv : ℕ
op_sdiv = 0x05

abbrev pub op_mod : ℕ
op_mod = 0x06

abbrev pub op_smod : ℕ
op_smod = 0x07

abbrev pub op_addmod : ℕ
op_addmod = 0x08

abbrev pub op_mulmod : ℕ
op_mulmod = 0x09

abbrev pub op_exp : ℕ
op_exp = 0x0a

abbrev pub op_signextend : ℕ
op_signextend = 0x0b

abbrev pub op_lt : ℕ
op_lt = 0x10

abbrev pub op_gt : ℕ
op_gt = 0x11

abbrev pub op_slt : ℕ
op_slt = 0x12

abbrev pub op_sgt : ℕ
op_sgt = 0x13

abbrev pub op_eq : ℕ
op_eq = 0x14

abbrev pub op_iszero : ℕ
op_iszero = 0x15

abbrev pub op_and : ℕ
op_and = 0x16

abbrev pub op_or : ℕ
op_or = 0x17

abbrev pub op_xor : ℕ
op_xor = 0x18

abbrev pub op_not : ℕ
op_not = 0x19

abbrev pub op_byte : ℕ
op_byte = 0x1a

abbrev pub op_shl : ℕ
op_shl = 0x1b

abbrev pub op_shr : ℕ
op_shr = 0x1c

abbrev pub op_sar : ℕ
op_sar = 0x1d

abbrev pub op_keccak256 : ℕ
op_keccak256 = 0x20
