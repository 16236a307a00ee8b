-- ===== src/Evm/Properties.antt =====
-- src/execution/evm/instructions/properties.rs: what the instructions need of the stack and do to it.
use martinez.Base.{ℕ, Option, List, [], ◌∷◌, ◌++◌, map, ◌+◌}
use martinez.Evm.Tables.{ℤ, pos, negsuc, find, count}
use martinez.Evm.OpCodes.{
  op_add, op_addmod, op_address, op_and, op_balance, op_basefee, op_blockhash, op_byte, op_call,
  op_callcode, op_calldatacopy, op_calldataload, op_calldatasize, op_caller, op_callvalue,
  op_chainid, op_codecopy, op_codesize, op_coinbase, op_create, op_create2, op_delegatecall,
  op_difficulty, op_div, op_dup, op_eq, op_exp, op_extcodecopy, op_extcodehash, op_extcodesize,
  op_gas, op_gaslimit, op_gasprice, op_gt, op_invalid, op_iszero, op_jump, op_jumpdest, op_jumpi,
  op_keccak256, op_log, op_lt, op_mload, op_mod, op_msize, op_mstore, op_mstore8, op_mul, op_mulmod,
  op_not, op_number, op_or, op_origin, op_pc, op_pop, op_push, op_return, op_returndatacopy,
  op_returndatasize, op_revert, op_sar, op_sdiv, op_selfbalance, op_selfdestruct, op_sgt, op_shl,
  op_shr, op_signextend, op_sload, op_slt, op_smod, op_sstore, op_staticcall, op_stop, op_sub,
  op_swap, op_timestamp, op_xor,
}

pub record Properties : Type 0 where
  pub stack_height_required : ℕ
  pub stack_height_change : ℤ

abbrev row : ℕ → ℕ → ℤ → ℕ × Properties
row op required change =
    (op, record { stack_height_required = required; stack_height_change = change })

abbrev compute_rows : List (ℕ × Properties)
compute_rows =
    row op_stop 0 (pos 0)
    ∷ row op_add 2 (negsuc 0)
    ∷ row op_mul 2 (negsuc 0)
    ∷ row op_sub 2 (negsuc 0)
    ∷ row op_div 2 (negsuc 0)
    ∷ row op_sdiv 2 (negsuc 0)
    ∷ row op_mod 2 (negsuc 0)
    ∷ row op_smod 2 (negsuc 0)
    ∷ row op_addmod 3 (negsuc 1)
    ∷ row op_mulmod 3 (negsuc 1)
    ∷ row op_exp 2 (negsuc 0)
    ∷ row op_signextend 2 (negsuc 0)
    ∷ row op_lt 2 (negsuc 0)
    ∷ row op_gt 2 (negsuc 0)
    ∷ row op_slt 2 (negsuc 0)
    ∷ row op_sgt 2 (negsuc 0)
    ∷ row op_eq 2 (negsuc 0)
    ∷ row op_iszero 1 (pos 0)
    ∷ row op_and 2 (negsuc 0)
    ∷ row op_or 2 (negsuc 0)
    ∷ row op_xor 2 (negsuc 0)
    ∷ row op_not 1 (pos 0)
    ∷ row op_byte 2 (negsuc 0)
    ∷ row op_shl 2 (negsuc 0)
    ∷ row op_shr 2 (negsuc 0)
    ∷ row op_sar 2 (negsuc 0)
    ∷ row op_keccak256 2 (negsuc 0)
    ∷ []

abbrev environment_rows : List (ℕ × Properties)
environment_rows =
    row op_address 0 (pos 1)
    ∷ row op_balance 1 (pos 0)
    ∷ row op_origin 0 (pos 1)
    ∷ row op_caller 0 (pos 1)
    ∷ row op_callvalue 0 (pos 1)
    ∷ row op_calldataload 1 (pos 0)
    ∷ row op_calldatasize 0 (pos 1)
    ∷ row op_calldatacopy 3 (negsuc 2)
    ∷ row op_codesize 0 (pos 1)
    ∷ row op_codecopy 3 (negsuc 2)
    ∷ row op_gasprice 0 (pos 1)
    ∷ row op_extcodesize 1 (pos 0)
    ∷ row op_extcodecopy 4 (negsuc 3)
    ∷ row op_returndatasize 0 (pos 1)
    ∷ row op_returndatacopy 3 (negsuc 2)
    ∷ row op_extcodehash 1 (pos 0)
    ∷ row op_blockhash 1 (pos 0)
    ∷ row op_coinbase 0 (pos 1)
    ∷ row op_timestamp 0 (pos 1)
    ∷ row op_number 0 (pos 1)
    ∷ row op_difficulty 0 (pos 1)
    ∷ row op_gaslimit 0 (pos 1)
    ∷ row op_chainid 0 (pos 1)
    ∷ row op_selfbalance 0 (pos 1)
    ∷ row op_basefee 0 (pos 1)
    ∷ []

abbrev machine_rows : List (ℕ × Properties)
machine_rows =
    row op_pop 1 (negsuc 0)
    ∷ row op_mload 1 (pos 0)
    ∷ row op_mstore 2 (negsuc 1)
    ∷ row op_mstore8 2 (negsuc 1)
    ∷ row op_sload 1 (pos 0)
    ∷ row op_sstore 2 (negsuc 1)
    ∷ row op_jump 1 (negsuc 0)
    ∷ row op_jumpi 2 (negsuc 1)
    ∷ row op_pc 0 (pos 1)
    ∷ row op_msize 0 (pos 1)
    ∷ row op_gas 0 (pos 1)
    ∷ row op_jumpdest 0 (pos 0)
    ∷ []

abbrev push_rows : List (ℕ × Properties)
push_rows = map (λ n. row (op_push n) 0 (pos 1)) (count 1 32)

abbrev dup_rows : List (ℕ × Properties)
dup_rows = map (λ n. row (op_dup n) n (pos 1)) (count 1 16)

abbrev swap_rows : List (ℕ × Properties)
swap_rows = map (λ n. row (op_swap n) (n + 1) (pos 0)) (count 1 16)

abbrev log_rows : List (ℕ × Properties)
log_rows = map (λ n. row (op_log n) (n + 2) (negsuc (n + 1))) (count 0 5)

abbrev calls_rows : List (ℕ × Properties)
calls_rows =
    row op_create 3 (negsuc 1)
    ∷ row op_call 7 (negsuc 5)
    ∷ row op_callcode 7 (negsuc 5)
    ∷ row op_return 2 (negsuc 1)
    ∷ row op_delegatecall 6 (negsuc 4)
    ∷ row op_create2 4 (negsuc 2)
    ∷ row op_staticcall 6 (negsuc 4)
    ∷ row op_revert 2 (negsuc 1)
    ∷ row op_invalid 0 (pos 0)
    ∷ row op_selfdestruct 1 (negsuc 0)
    ∷ []

unfoldable pub properties : ℕ → Option Properties
properties = find (
    compute_rows ++ environment_rows ++ machine_rows ++ push_rows ++ dup_rows ++ swap_rows
    ++ log_rows ++ calls_rows)
