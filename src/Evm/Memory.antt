-- ===== src/Evm/Memory.antt =====
-- src/execution/evm/instructions/memory.rs: the memory, what its growth costs, and the instructions
-- that copy to it. The gas left is not negative before an instruction.
use martinez.Base.{
  ℕ, zero, suc, ◌+◌, ◌-◌, ◌*◌, ◌/◌, ◌%◌, ◌^◌, Option, none, some, List, [], ◌∷◌, ◌++◌, ltb, ◌==◌,
  if◌then◌else◌, length, take, resize,
}
use martinez.Evm.Requirements.{StatusCode, out_of_gas}
use martinez.Evm.Stack.{Stack, Outcome, returned, panicked, ◌>>=◌, push, pop}

abbrev pub Bytes : Type 0
Bytes = List ℕ

-- What the instructions change of the execution state.
pub record Frame : Type 0 where
  pub stack : Stack
  pub memory : Bytes
  pub gas_left : ℕ

-- The instruction was executed, or ends the execution.
pub data Ran : Type 0 where
  running : Frame → Ran
  halted : StatusCode → Ran

-- `u32::MAX`
abbrev pub max_buffer_size : ℕ
max_buffer_size = 2 ^ 32 - 1

unfoldable pub num_words : ℕ → ℕ
num_words size_in_bytes = (size_in_bytes + 31) / 32

-- The cost of a memory of a number of words.
unfoldable pub memory_cost : ℕ → ℕ
memory_cost words = 3 * words + words * words / 512

-- `none` is out of gas.
unfoldable pub grow_memory : Frame → ℕ → Option Frame
grow_memory frame new_size =
    let new_words = num_words new_size in
    let cost = memory_cost new_words - memory_cost (length frame.memory / 32) in
    if ltb frame.gas_left cost
    then none
    else some (record frame {
      gas_left = frame.gas_left - cost;
      memory = resize (new_words * 32) 0 frame.memory;
    })

-- The region begins at the offset and has the size.
unfoldable pub get_memory_region_u64 : Frame → (offset size : ℕ) → Option Frame
get_memory_region_u64 frame offset size =
    if ltb max_buffer_size offset
    then none
    else if ltb (length frame.memory) (offset + size)
    then grow_memory frame (offset + size)
    else some frame

-- A region of no size is none.
unfoldable pub get_memory_region : Frame → (offset size : ℕ) → Option Frame
get_memory_region frame offset size =
    if size == 0
    then some frame
    else if ltb max_buffer_size size
    then none
    else get_memory_region_u64 frame offset size

abbrev pub drop : ℕ → Bytes → Bytes
drop zero xs = xs
drop (suc n) [] = []
drop (suc n) (x ∷ xs) = drop n xs

-- `bytes[from..from + n]`, with its check of the bounds.
unfoldable pub slice : Bytes → (from n : ℕ) → Outcome Bytes
slice bytes from n =
    if ltb (length bytes) (from + n) then panicked else returned (take n (drop from bytes))

-- `memory[at..at + new.len()].copy_from_slice(new)`
unfoldable pub write : Bytes → (at : ℕ) → Bytes → Outcome Bytes
write memory at new =
    if ltb (length memory) (at + length new)
    then panicked
    else returned (take at memory ++ (new ++ drop (at + length new) memory))

-- `to_be_bytes` of a number of bytes, and back.
unfoldable pub to_be_bytes : ℕ → ℕ → Bytes
to_be_bytes zero v = []
to_be_bytes (suc n) v = v / 256 ^ n % 256 ∷ to_be_bytes n v

unfoldable pub from_be_bytes : ℕ → Bytes → ℕ
from_be_bytes v [] = v
from_be_bytes v (b ∷ rest) = from_be_bytes (v * 256 + b) rest

-- `map_err(|_| StatusCode::OutOfGas)?`
abbrev pub or_out_of_gas : Option Frame → (Frame → Outcome Ran) → Outcome Ran
or_out_of_gas none rest = returned (halted out_of_gas)
or_out_of_gas (some frame) rest = rest frame

unfoldable pub mload : Frame → Outcome Ran
mload frame = do
  (index, stack) ← pop frame.stack
  or_out_of_gas (get_memory_region_u64 (record frame { stack = stack }) index 32) (λ grown. do
    bytes ← slice grown.memory index 32
    stack' ← push (from_be_bytes 0 bytes) grown.stack
    returned (running (record grown { stack = stack' })))

unfoldable pub mstore : Frame → Outcome Ran
mstore frame = do
  (index, stack₁) ← pop frame.stack
  (value, stack) ← pop stack₁
  or_out_of_gas (get_memory_region_u64 (record frame { stack = stack }) index 32) (λ grown. do
    memory ← write grown.memory index (to_be_bytes 32 value)
    returned (running (record grown { memory = memory })))

unfoldable pub mstore8 : Frame → Outcome Ran
mstore8 frame = do
  (index, stack₁) ← pop frame.stack
  (value, stack) ← pop stack₁
  or_out_of_gas (get_memory_region_u64 (record frame { stack = stack }) index 1) (λ grown. do
    memory ← write grown.memory index (value % 256 ∷ [])
    returned (running (record grown { memory = memory })))

unfoldable pub msize : Frame → Outcome Ran
msize frame = do
  stack ← push (length frame.memory) frame.stack
  returned (running (record frame { stack = stack }))
