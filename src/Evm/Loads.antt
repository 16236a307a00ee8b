-- ===== src/Evm/Loads.antt =====
-- What `mstore` leaves for `mload`, and what the memory costs.
use martinez.Base.{
  ℕ, zero, suc, ◌+◌, ◌-◌, ◌*◌, ◌/◌, ◌%◌, ◌^◌, ◌≤◌, ◌<◌, ◌≡◌, refl, ap, ◌⊎◌, none, some, [], ◌∷◌,
  false, ltb, length, take, resize, take-length, length-resize, arith, inl, inr, Bool-cases,
  Option-cases,
}
use Prim.Native.Nat.{max}
use martinez.Evm.Requirements.{stack_size, out_of_gas}
use martinez.Evm.Stack.{Stack, returned, push_returns}
use martinez.Evm.Memory.{
  Bytes, Frame, running, halted, num_words, memory_cost, grow_memory, get_memory_region_u64,
  max_buffer_size, slice, to_be_bytes, mload, mstore,
}
use martinez.Evm.Bytes.{
  length-to_be_bytes, slice-write, get_memory_region_bounds, from_be_bytes-to_be_bytes,
}

-- The memory is long enough already.
region_there :
    (frame : Frame) (offset size : ℕ)
    → offset ≤ max_buffer_size
    → offset + size ≤ length frame.memory
    → get_memory_region_u64 frame offset size ≡ some frame
unfolding get_memory_region_u64
region_there frame offset size near long =
    let a : ltb max_buffer_size offset ≡ false = ground (arith, near) in
    let b : ltb (length frame.memory) (offset + size) ≡ false = ground (arith, long) in rw (a, b)

mload_there :
    (stack : Stack) (memory : Bytes) (gas index v : ℕ)
    → index ≤ max_buffer_size
    → index + 32 ≤ length memory
    → length stack < stack_size
    → v < 2 ^ 256
    → slice memory index 32 ≡ returned (to_be_bytes 32 v)
    → mload (record { stack = index ∷ stack; memory = memory; gas_left = gas })
      ≡ returned (running (record { stack = v ∷ stack; memory = memory; gas_left = gas }))
unfolding mload
mload_there stack memory gas index v near long room fits found = rw (
  region_there (record { stack = stack; memory = memory; gas_left = gas }) index 32 near long,
  found,
  from_be_bytes-to_be_bytes v fits,
  push_returns v stack room,
)

-- Storing a word in memory, with a stack that has room, ends with too little gas or succeeds, never
-- in a panic. If it succeeds, the two operands are off the stack, and loading from the same index
-- gives back the word, at no further cost for the memory.
pub mload-mstore :
    (index v : ℕ) (stack : Stack) (memory : Bytes) (gas : ℕ)
    → v < 2 ^ 256
    → length stack < stack_size
    → (mstore (record { stack = index ∷ v ∷ stack; memory = memory; gas_left = gas })
        ≡ returned (halted out_of_gas))
      ⊎ ((memory' : Bytes) × (gas' : ℕ) × (mstore
              (record { stack = index ∷ v ∷ stack; memory = memory; gas_left = gas })
            ≡ returned (running (record { stack = stack; memory = memory'; gas_left = gas' })))
          × (mload (record { stack = index ∷ stack; memory = memory'; gas_left = gas' })
              ≡ returned
                  (running (record { stack = v ∷ stack; memory = memory'; gas_left = gas' }))))
unfolding mstore
mload-mstore index v stack memory gas fits room =
    let frame : Frame = record { stack = stack; memory = memory; gas_left = gas } in
    elim (Option-cases (get_memory_region_u64 frame index 32)) [
      | inl poor ↦ inl (rw poor refl)
      | inr (grown, found) ↦
          let (long, same, near) = get_memory_region_bounds frame grown index 32 found in
          let size = length-to_be_bytes 32 v in
          let (memory', wrote, kept, back) =
            slice-write grown.memory index (to_be_bytes 32 v) (omega (arith, size, long)) in
          inr (
            memory',
            grown.gas_left,
            rw (found, wrote)
                (ap
                  (λ st.
                    returned (
                      running (record { stack = st; memory = memory'; gas_left = grown.gas_left })))
                  same),
            mload_there stack memory' grown.gas_left index v near (omega (arith, kept, long)) room
                fits (rw size at back),
          )
    ]

square_le : (a b : ℕ) → a ≤ b → a * a ≤ b * b
square_le a b h = grind arith

memory_cost_le : (a b : ℕ) → a ≤ b → memory_cost a ≤ memory_cost b
unfolding memory_cost
memory_cost_le a b h = omega (arith, square_le a b h)

take-resize : (n : ℕ) (d : ℕ) (xs : Bytes) → length xs ≤ n → take (length xs) (resize n d xs) ≡ xs
take-resize n d [] h = refl
take-resize zero d (x ∷ xs) h = absurd (omega (arith, h))
take-resize (suc n) d (x ∷ xs) h = λ i. x ∷ take-resize n d xs (omega arith) i

-- For a memory of whole words and an offset within the bound: asking for a region fails exactly if
-- the gas does not pay for the difference between the costs of the memory after and before. Else
-- that difference is paid, the memory has as many whole words as it had or as the region needs, if
-- that is more, its old bytes are kept, and so is the stack.
pub get_memory_region_paid :
    (frame : Frame) (offset size : ℕ)
    → length frame.memory % 32 ≡ 0
    → offset ≤ max_buffer_size
    → ((get_memory_region_u64 frame offset size ≡ none)
        × (frame.gas_left + memory_cost (length frame.memory / 32)
            < memory_cost (max (length frame.memory / 32) (num_words (offset + size)))))
      ⊎ ((grown : Frame) × (get_memory_region_u64 frame offset size ≡ some grown)
          × (grown.gas_left
                + memory_cost (max (length frame.memory / 32) (num_words (offset + size)))
              ≡ frame.gas_left + memory_cost (length frame.memory / 32))
          × (length grown.memory ≡ max (length frame.memory / 32) (num_words (offset + size)) * 32)
          × (take (length frame.memory) grown.memory ≡ frame.memory)
          × (grown.stack ≡ frame.stack))
unfolding get_memory_region_u64 grow_memory num_words
get_memory_region_paid frame offset size whole near =
    let near' : ltb max_buffer_size offset ≡ false = ground (arith, near) in
    let old = length frame.memory in
    let words = (offset + size + 31) / 32 in
    elim (Bool-cases (ltb old (offset + size))) [
      | inr long ↦
          let enough : offset + size ≤ old = ground (arith, long) in
          let most : max (old / 32) words ≡ old / 32 = omega arith in
          inr (
            frame,
            rw (near', long) refl,
            rw most refl,
            rw most (omega arith),
            take-length frame.memory,
            refl,
          )
      | inl short ↦
          let less : old < offset + size = ground (arith, short) in
          let most : max (old / 32) words ≡ words = omega arith in
          let mono = memory_cost_le (old / 32) words (omega arith) in
          elim (Bool-cases (ltb frame.gas_left (memory_cost words - memory_cost (old / 32)))) [
            | inl poor ↦
                let lack : frame.gas_left < memory_cost words - memory_cost (old / 32) =
                  ground (arith, poor) in
                inl (rw (near', short, poor) refl, rw most (omega (arith, lack, mono)))
            | inr paid ↦
                let pays : memory_cost words - memory_cost (old / 32) ≤ frame.gas_left =
                  ground (arith, paid) in
                let grown : Frame = record frame {
                  gas_left = frame.gas_left - (memory_cost words - memory_cost (old / 32));
                  memory = resize (words * 32) 0 frame.memory;
                } in
                inr (
                  grown,
                  rw (near', short, paid) refl,
                  rw most (omega (arith, pays, mono)),
                  rw most (length-resize (words * 32) 0 frame.memory),
                  take-resize (words * 32) 0 frame.memory (omega arith),
                  refl,
                )
          ]
    ]
