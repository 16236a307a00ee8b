-- ===== src/Evm/Copies.antt =====
-- src/execution/evm/instructions/memory.rs: the instructions that copy into the memory, and the hash
-- of a part of it. The contract of Keccak is another crate's, so the hash is an argument.
use Prim.Native.Nat.{min}
use martinez.Base.{ℕ, zero, suc, ◌+◌, ◌-◌, ◌*◌, [], ◌∷◌, ltb, ◌==◌, if◌then◌else◌, length}
use martinez.Evm.Requirements.{out_of_gas, invalid_memory_access}
use martinez.Evm.Stack.{Outcome, returned, ◌>>=◌, push, pop}
use martinez.Evm.Memory.{
  Bytes, Frame, Ran, running, halted, num_words, get_memory_region, slice, write, or_out_of_gas,
}

-- The cost for each word of a region is taken; `rest` goes on.
abbrev pub charge : ℕ → Frame → (Frame → Outcome Ran) → Outcome Ran
charge cost frame rest =
    if ltb frame.gas_left cost
    then returned (halted out_of_gas)
    else rest (record frame { gas_left = frame.gas_left - cost })

abbrev pub zeros : ℕ → Bytes
zeros zero = []
zeros (suc n) = 0 ∷ zeros n

-- `if copy_size > 0 { … copy_from_slice }`, then `if region.size > copy_size { … fill(0) }`.
abbrev pub copy_part : Bytes → (at : ℕ) → Bytes → (from n : ℕ) → Outcome Bytes
copy_part memory at source from n =
    if n == 0 then returned memory else (slice source from n >>= write memory at)

abbrev pub fill_part : Bytes → (at n size : ℕ) → Outcome Bytes
fill_part memory at n size =
    if ltb n size then write memory (at + n) (zeros (size - n)) else returned memory

unfoldable pub copy_region : Bytes → (at from size : ℕ) → Frame → Outcome Ran
copy_region source at from size frame = do
  let src = min (length source) from
  let n = min size (length source - src)
  memory₁ ← copy_part frame.memory at source src n
  memory₂ ← fill_part memory₁ at n size
  returned (running (record frame { memory = memory₂ }))

-- The common course of CALLDATACOPY and CODECOPY: the second charges after it has the numbers.
unfoldable pub copy_from : Bytes → Frame → Outcome Ran
copy_from source frame = do
  (mem_index, stack₁) ← pop frame.stack
  (input_index, stack₂) ← pop stack₁
  (size, stack) ← pop stack₂
  or_out_of_gas (get_memory_region (record frame { stack = stack }) mem_index size) (λ grown.
      if size == 0
      then returned (running grown)
      else charge (num_words size * 3) grown (copy_region source mem_index input_index size))

unfoldable pub returndatacopy : Bytes → Frame → Outcome Ran
returndatacopy return_data frame = do
  (mem_index, stack₁) ← pop frame.stack
  (input_index, stack₂) ← pop stack₁
  (size, stack) ← pop stack₂
  or_out_of_gas (get_memory_region (record frame { stack = stack }) mem_index size) (λ grown.
      if ltb (length return_data) input_index
      then returned (halted invalid_memory_access)
      else if ltb (length return_data) (input_index + size)
      then returned (halted invalid_memory_access)
      else if size == 0
      then returned (running grown)
      else charge (num_words size * 3) grown (λ paid. do
        bytes ← slice return_data input_index size
        memory ← write paid.memory mem_index bytes
        returned (running (record paid { memory = memory }))))

abbrev pub push_hash : (Bytes → ℕ) → Frame → Bytes → Outcome Ran
push_hash hash frame bytes = do
  stack ← push (hash bytes) frame.stack
  returned (running (record frame { stack = stack }))

unfoldable pub keccak256 : (Bytes → ℕ) → Frame → Outcome Ran
keccak256 hash frame = do
  (index, stack₁) ← pop frame.stack
  (size, stack) ← pop stack₁
  or_out_of_gas (get_memory_region (record frame { stack = stack }) index size) (λ grown.
      if size == 0
      then push_hash hash grown []
      else charge (num_words size * 6) grown
          (λ paid. slice paid.memory index size >>= push_hash hash paid))

abbrev pub calldatacopy : Bytes → Frame → Outcome Ran
calldatacopy input_data = copy_from input_data

abbrev pub codecopy : Bytes → Frame → Outcome Ran
codecopy code = copy_from code
