-- ===== src/Evm/MemoryTests.antt =====
-- The memory on concrete inputs, and the theorems at them.
use Prim.Native.Nat.{max}
use martinez.Base.{ℕ, ◌+◌, ◌*◌, ◌/◌, ◌<◌, ◌≡◌, refl, ◌⊎◌, none, some, [], ◌∷◌, length, take, arith}
use martinez.Evm.Requirements.{out_of_gas, invalid_memory_access}
use martinez.Evm.Stack.{Stack, returned}
use martinez.Evm.Memory.{
  Bytes, Frame, running, halted, num_words, memory_cost, grow_memory, get_memory_region,
  get_memory_region_u64, slice, mload, mstore, mstore8, msize,
}
use martinez.Evm.Copies.{copy_from, returndatacopy, keccak256}
use martinez.Evm.Loads.{mload-mstore, get_memory_region_paid}
use martinez.Evm.Copied.{copy_from_lem}

abbrev frame_of : Stack → ℕ → Frame
frame_of stack gas = record { stack = stack; memory = []; gas_left = gas }

-- A byte at index 40 needs two words of memory, for six units of gas.
two_words :
    get_memory_region_u64 (frame_of [] 10) 40 1
    ≡ some (record {
      stack = [];
      memory =
          0 ∷ 0 ∷ 0 ∷ 0 ∷ 0 ∷ 0 ∷ 0 ∷ 0 ∷ 0 ∷ 0 ∷ 0 ∷ 0 ∷ 0 ∷ 0 ∷ 0 ∷ 0 ∷ 0 ∷ 0 ∷ 0 ∷ 0 ∷ 0 ∷ 0 ∷ 0
          ∷ 0 ∷ 0 ∷ 0 ∷ 0 ∷ 0 ∷ 0 ∷ 0 ∷ 0 ∷ 0 ∷ 0 ∷ 0 ∷ 0 ∷ 0 ∷ 0 ∷ 0 ∷ 0 ∷ 0 ∷ 0 ∷ 0 ∷ 0 ∷ 0 ∷ 0
          ∷ 0 ∷ 0 ∷ 0 ∷ 0 ∷ 0 ∷ 0 ∷ 0 ∷ 0 ∷ 0 ∷ 0 ∷ 0 ∷ 0 ∷ 0 ∷ 0 ∷ 0 ∷ 0 ∷ 0 ∷ 0 ∷ 0 ∷ [];
      gas_left = 4;
    })
unfolding get_memory_region_u64 grow_memory num_words memory_cost
two_words = refl

too_little : mstore8 (frame_of (40 ∷ 7 ∷ []) 5) ≡ returned (halted out_of_gas)
unfolding mstore8 get_memory_region_u64 grow_memory num_words memory_cost
too_little = refl

no_memory : msize (frame_of [] 5) ≡ returned (running (frame_of (0 ∷ []) 5))
unfolding msize
no_memory = refl

-- The return data are shorter than what is asked for.
past_return_data :
    returndatacopy (1 ∷ 2 ∷ []) (frame_of (0 ∷ 1 ∷ 2 ∷ []) 100)
    ≡ returned (halted invalid_memory_access)
unfolding returndatacopy get_memory_region get_memory_region_u64 grow_memory num_words memory_cost
past_return_data = refl

empty_hash : keccak256 length (frame_of (0 ∷ 0 ∷ []) 5) ≡ returned (running (frame_of (0 ∷ []) 5))
unfolding keccak256 get_memory_region
empty_hash = refl

mload-mstore_example :
    (mstore (frame_of (40 ∷ 7 ∷ 1 ∷ []) 100) ≡ returned (halted out_of_gas))
    ⊎ ((memory' : Bytes) × (gas' : ℕ) × (mstore (frame_of (40 ∷ 7 ∷ 1 ∷ []) 100)
          ≡ returned (running (record { stack = 1 ∷ []; memory = memory'; gas_left = gas' })))
        × (mload (record { stack = 40 ∷ 1 ∷ []; memory = memory'; gas_left = gas' })
            ≡ returned
                (running (record { stack = 7 ∷ 1 ∷ []; memory = memory'; gas_left = gas' }))))
mload-mstore_example = mload-mstore 40 7 (1 ∷ []) [] 100 (omega arith) (omega arith)

get_memory_region_paid_example :
    ((get_memory_region_u64 (frame_of [] 10) 40 1 ≡ none)
      × (10 + memory_cost (0 / 32) < memory_cost (max (0 / 32) (num_words (40 + 1)))))
    ⊎ ((grown : Frame) × (get_memory_region_u64 (frame_of [] 10) 40 1 ≡ some grown)
        × (grown.gas_left + memory_cost (max (0 / 32) (num_words (40 + 1)))
            ≡ 10 + memory_cost (0 / 32))
        × (length grown.memory ≡ max (0 / 32) (num_words (40 + 1)) * 32)
        × (take 0 grown.memory ≡ [])
        × (grown.stack ≡ []))
get_memory_region_paid_example = get_memory_region_paid (frame_of [] 10) 40 1 refl (omega arith)

copy_from_lem_example :
    (copy_from (8 ∷ 9 ∷ []) (frame_of (3 ∷ 1 ∷ 4 ∷ []) 100) ≡ returned (halted out_of_gas))
    ⊎ ((after : Frame) × (copy_from (8 ∷ 9 ∷ []) (frame_of (3 ∷ 1 ∷ 4 ∷ []) 100)
          ≡ returned (running after))
        × (after.stack ≡ [])
        × (slice after.memory 3 4 ≡ returned (9 ∷ 0 ∷ 0 ∷ 0 ∷ [])))
copy_from_lem_example = copy_from_lem (8 ∷ 9 ∷ []) 3 1 4 [] [] 100 (omega arith)
