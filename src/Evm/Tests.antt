-- ===== src/Evm/Tests.antt =====
-- The checks of the virtual machine on concrete instructions and codes, and the theorems at them.
use martinez.Base.{
  ℕ, ◌+◌, ◌<◌, inl, inr, true, false, Option, some, List, [], ◌∷◌, ◌≡◌, refl, arith, length, ◌↔◌,
  ok, suc, none, ltb, if◌then◌else◌, ◌-◌, ◌^◌, ◌%◌, ◌≤◌,
}
use martinez.Consensus.Rewards.{london, frontier, rank}
use martinez.Evm.Power.{
  exp, exp_loop, exp_gas, exp_lem, log2floor, bit_length, leading_zeros, last_bit,
}
use martinez.Evm.Log.{log2floor_lem}
use martinez.Evm.OpCodes.{op_add, op_jumpdest, op_shl}
use martinez.Evm.Properties.{Properties, properties}
use martinez.Evm.Stack.{Stack, returned}
use martinez.Evm.Instructions.{word, i_add, i_swap, execute, swap}
use martinez.Evm.Heights.{After, execute-After}
use martinez.Evm.GasCosts.{gas_costs}
use martinez.Evm.Requirements.{
  InstructionTableEntry, instruction_table, instruction_table_total, check_requirements, passed,
  stopped, stack_overflow, IsSafe, check_requirements-IsSafe,
}
use martinez.Evm.Jumps.{width, byte_at, analyze_loop, analyze, contains}
use martinez.Evm.Reached.{HasData, Reach, here, next, contains-Reach, padded_code-Reach}

abbrev add_entry : InstructionTableEntry
add_entry = record { gas_cost = 3; stack_height_required = 2; can_overflow_stack = false }

add_table : instruction_table london op_add ≡ ok (some add_entry)
unfolding instruction_table gas_costs properties
add_table = refl

-- ADD on a full stack.
abbrev full_height : ℕ
full_height = 1024

add_passes : check_requirements (some add_entry) 10 full_height ≡ passed 7
unfolding check_requirements
add_passes = refl

check_requirements-IsSafe_example : IsSafe london op_add 10 full_height 7
check_requirements-IsSafe_example =
    check_requirements-IsSafe london op_add 10 full_height 7 (some add_entry) (omega arith)
      add_table add_passes

instruction_table_total_example :
    (entry : Option InstructionTableEntry) × (instruction_table london op_shl ≡ ok entry)
instruction_table_total_example = instruction_table_total london op_shl

-- DUP1 on a full stack.
dup_stopped :
    check_requirements
      (some (record { gas_cost = 3; stack_height_required = 1; can_overflow_stack = true }))
      10
      full_height
    ≡ stopped stack_overflow
unfolding check_requirements
dup_stopped = refl

-- PUSH1 0x5b, JUMPDEST, PUSH2 with one byte of data left.
abbrev code : List ℕ
code = 0x60 ∷ 0x5b ∷ 0x5b ∷ 0x61 ∷ 0x5b ∷ []

not_in_data : contains (analyze code).jumpdest_map 1 ≡ false
unfolding contains analyze analyze_loop width
not_in_data = refl

contains-Reach_example :
    (contains (analyze code).jumpdest_map 2 ≡ true)
    ↔ (Reach code 0 2 × (2 < length code) × (byte_at code 2 ≡ op_jumpdest))
contains-Reach_example = contains-Reach code 2

abbrev pc : ℕ
pc = 3

at_push : Reach code 0 pc
at_push =
    next {n = 1} (omega arith) (inl (omega arith, omega arith, refl))
      (next {n = 0} (omega arith) (inr (inl (omega arith), refl)) here)

padded_code-Reach_example :
    (pc < length (analyze code).padded_code)
    × (byte_at (analyze code).padded_code pc ≡ byte_at code pc)
    × ((n : ℕ)
        → pc < length code
        → HasData (byte_at code pc) n
        → pc + n + 1 < length (analyze code).padded_code)
padded_code-Reach_example = padded_code-Reach code pc at_push

-- ADD at the top of a stack of three items.
abbrev three : Stack
three = 7 ∷ 8 ∷ 9 ∷ []

add_passes_three : check_requirements (some add_entry) 10 (length three) ≡ passed 7
unfolding check_requirements
add_passes_three = refl

execute-After_example :
    (p : Properties) × (out : Stack) × (properties op_add ≡ some p)
    × (execute i_add three ≡ returned out)
    × After (length three) p.stack_height_change (length out)
execute-After_example =
    execute-After london i_add 10 7 three (some add_entry) tt (omega arith) add_table
      add_passes_three

swapped : execute (i_swap 2) three ≡ returned (9 ∷ 8 ∷ 7 ∷ [])
unfolding execute swap
swapped = refl

-- 3 to the power of 5, before Spurious Dragon.
abbrev exponent : ℕ
exponent = 5

exp_lem_example : exp frontier 100 (3 ∷ exponent ∷ []) ≡ (
    if ltb 100 (exp_gas frontier exponent)
    then returned none
    else returned (some (100 - exp_gas frontier exponent, 3 ^ exponent % word ∷ [])))
exp_lem_example = exp_lem frontier 100 3 exponent [] (omega arith) (omega arith)

exp_run : exp frontier 100 (3 ∷ exponent ∷ []) ≡ returned (some (90, 243 ∷ []))
unfolding exp exp_loop exp_gas log2floor bit_length leading_zeros last_bit rank
exp_run = refl

abbrev high_value : ℕ
high_value = 2 ^ 200

log2floor_lem_example :
    (2 ^ log2floor high_value ≤ high_value) × (high_value < 2 ^ suc (log2floor high_value))
log2floor_lem_example = log2floor_lem high_value (omega arith) (omega arith)
