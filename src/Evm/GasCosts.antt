-- ===== src/Evm/GasCosts.antt =====
-- src/execution/evm/instructions/properties.rs: the gas costs of the instructions in each revision.
-- A table that is copied and assigned to has its assignments before the rows of the copy.
use martinez.Base.{ℕ, List, ◌∷◌, ◌++◌, map, ◌+◌, ◌*◌}
use martinez.Evm.Tables.{count}
use martinez.Consensus.Rewards.{
  Revision, frontier, homestead, tangerine, spurious, byzantium, constantinople, petersburg,
  istanbul, berlin, london, shanghai,
}
use martinez.Evm.OpCodes.{
  op_add, op_addmod, op_address, op_and, op_balance, op_basefee, op_blockhash, op_byte, op_call,
  op_callcode, op_calldatacopy, op_calldataload, op_calldatasize, op_caller, op_callvalue,
  op_chainid, op_codecopy, op_codesize, op_coinbase, op_create, op_create2, op_delegatecall,
  op_difficulty, op_div, op_dup, op_eq, op_exp, op_extcodecopy, op_extcodehash, op_extcodesize,
  op_gas, op_gaslimit, op_gasprice, op_gt, op_invalid, op_iszero, op_jump, op_jumpdest, op_jumpi,
  op_keccak256, op_log, op_lt, op_mload, op_mod, op_msize, op_mstore, op_mstore8, op_mul, op_mulmod,
  op_not, op_number, op_or, op_origin, op_pc, op_pop, op_push, op_return, op_returndatacopy,
  op_returndatasize, op_revert, op_sar, op_sdiv, op_selfbalance, op_selfdestruct, op_sgt, op_shl,
  op_shr, op_signextend, op_sload, op_slt, op_smod, op_sstore, op_staticcall, op_stop, op_sub,
  op_swap, op_timestamp, op_xor,
}

abbrev warm_storage_read_cost : ℕ
warm_storage_read_cost = 100

abbrev frontier_costs : List (ℕ × ℕ)
frontier_costs =
    (op_stop, 0)
    ∷ (op_add, 3)
    ∷ (op_mul, 5)
    ∷ (op_sub, 3)
    ∷ (op_div, 5)
    ∷ (op_sdiv, 5)
    ∷ (op_mod, 5)
    ∷ (op_smod, 5)
    ∷ (op_addmod, 8)
    ∷ (op_mulmod, 8)
    ∷ (op_exp, 10)
    ∷ (op_signextend, 5)
    ∷ (op_lt, 3)
    ∷ (op_gt, 3)
    ∷ (op_slt, 3)
    ∷ (op_sgt, 3)
    ∷ (op_eq, 3)
    ∷ (op_iszero, 3)
    ∷ (op_and, 3)
    ∷ (op_or, 3)
    ∷ (op_xor, 3)
    ∷ (op_not, 3)
    ∷ (op_byte, 3)
    ∷ (op_keccak256, 30)
    ∷ (op_address, 2)
    ∷ (op_balance, 20)
    ∷ (op_origin, 2)
    ∷ (op_caller, 2)
    ∷ (op_callvalue, 2)
    ∷ (op_calldataload, 3)
    ∷ (op_calldatasize, 2)
    ∷ (op_calldatacopy, 3)
    ∷ (op_codesize, 2)
    ∷ (op_codecopy, 3)
    ∷ (op_gasprice, 2)
    ∷ (op_extcodesize, 20)
    ∷ (op_extcodecopy, 20)
    ∷ (op_blockhash, 20)
    ∷ (op_coinbase, 2)
    ∷ (op_timestamp, 2)
    ∷ (op_number, 2)
    ∷ (op_difficulty, 2)
    ∷ (op_gaslimit, 2)
    ∷ (op_pop, 2)
    ∷ (op_mload, 3)
    ∷ (op_mstore, 3)
    ∷ (op_mstore8, 3)
    ∷ (op_sload, 50)
    ∷ (op_sstore, 0)
    ∷ (op_jump, 8)
    ∷ (op_jumpi, 10)
    ∷ (op_pc, 2)
    ∷ (op_msize, 2)
    ∷ (op_gas, 2)
    ∷ (op_jumpdest, 1)
    ∷ (op_create, 32000)
    ∷ (op_call, 40)
    ∷ (op_callcode, 40)
    ∷ (op_return, 0)
    ∷ (op_invalid, 0)
    ∷ (op_selfdestruct, 0)
    ∷ (map (λ n. (op_push n, 3)) (count 1 32)
        ++ map (λ n. (op_dup n, 3)) (count 1 16)
        ++ map (λ n. (op_swap n, 3)) (count 1 16)
        ++ map (λ i. (op_log i, (1 + i) * 375)) (count 0 5))

abbrev homestead_costs : List (ℕ × ℕ)
homestead_costs = (op_delegatecall, 40) ∷ frontier_costs

abbrev tangerine_costs : List (ℕ × ℕ)
tangerine_costs =
    (op_balance, 400)
    ∷ (op_extcodesize, 700)
    ∷ (op_extcodecopy, 700)
    ∷ (op_sload, 200)
    ∷ (op_call, 700)
    ∷ (op_callcode, 700)
    ∷ (op_delegatecall, 700)
    ∷ (op_selfdestruct, 5000)
    ∷ homestead_costs

abbrev spurious_costs : List (ℕ × ℕ)
spurious_costs = tangerine_costs

abbrev byzantium_costs : List (ℕ × ℕ)
byzantium_costs =
    (op_returndatasize, 2)
    ∷ (op_returndatacopy, 3)
    ∷ (op_staticcall, 700)
    ∷ (op_revert, 0)
    ∷ spurious_costs

abbrev constantinople_costs : List (ℕ × ℕ)
constantinople_costs =
    (op_shl, 3)
    ∷ (op_shr, 3)
    ∷ (op_sar, 3)
    ∷ (op_extcodehash, 400)
    ∷ (op_create2, 32000)
    ∷ byzantium_costs

abbrev petersburg_costs : List (ℕ × ℕ)
petersburg_costs = constantinople_costs

abbrev istanbul_costs : List (ℕ × ℕ)
istanbul_costs =
    (op_balance, 700)
    ∷ (op_chainid, 2)
    ∷ (op_extcodehash, 700)
    ∷ (op_selfbalance, 5)
    ∷ (op_sload, 800)
    ∷ petersburg_costs

abbrev berlin_costs : List (ℕ × ℕ)
berlin_costs =
    (op_extcodesize, warm_storage_read_cost)
    ∷ (op_extcodecopy, warm_storage_read_cost)
    ∷ (op_extcodehash, warm_storage_read_cost)
    ∷ (op_balance, warm_storage_read_cost)
    ∷ (op_call, warm_storage_read_cost)
    ∷ (op_callcode, warm_storage_read_cost)
    ∷ (op_delegatecall, warm_storage_read_cost)
    ∷ (op_staticcall, warm_storage_read_cost)
    ∷ (op_sload, warm_storage_read_cost)
    ∷ istanbul_costs

abbrev london_costs : List (ℕ × ℕ)
london_costs = (op_basefee, 2) ∷ berlin_costs

abbrev shanghai_costs : List (ℕ × ℕ)
shanghai_costs = london_costs

unfoldable pub gas_costs : Revision → List (ℕ × ℕ)
gas_costs frontier = frontier_costs
gas_costs homestead = homestead_costs
gas_costs tangerine = tangerine_costs
gas_costs spurious = spurious_costs
gas_costs byzantium = byzantium_costs
gas_costs constantinople = constantinople_costs
gas_costs petersburg = petersburg_costs
gas_costs istanbul = istanbul_costs
gas_costs berlin = berlin_costs
gas_costs london = london_costs
gas_costs shanghai = shanghai_costs
