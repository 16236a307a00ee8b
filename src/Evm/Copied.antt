-- ===== src/Evm/Copied.antt =====
-- What CALLDATACOPY and CODECOPY leave in the memory.
use Prim.Native.Nat.{min}
use martinez.Base.{
  ℕ, zero, suc, ◌+◌, ◌-◌, ◌*◌, ◌≤◌, ◌<◌, ◌≡◌, refl, sym, ap, subst, ◌∙◌, ◌⊎◌, [], ◌∷◌, ◌++◌, true,
  false, ltb, ◌==◌, length, take, resize, length-resize, arith, inl, inr, Bool-cases, Option-cases,
  some,
}
use martinez.Evm.Requirements.{out_of_gas}
use martinez.Evm.Stack.{Stack, Outcome, returned, panicked, overrun, ◌>>=◌}
use martinez.Evm.Memory.{
  Bytes, Frame, running, halted, num_words, get_memory_region, drop, slice, write, max_buffer_size,
}
use martinez.Evm.Copies.{zeros, copy_part, fill_part, copy_region, copy_from}
use martinez.Evm.Bytes.{slice-write, length-take, length-drop, get_memory_region_bounds}
use martinez.Evm.Parts.{length-zeros, padded, write-write, same_rest, least_is}

-- What the instruction copies: the input from an index on, with zeros after its end.
abbrev pub window : Bytes → (from size : ℕ) → Bytes
window source from size = resize size 0 (drop from source)

slice-inside :
    (bytes : Bytes) (from n : ℕ)
    → from + n ≤ length bytes
    → slice bytes from n ≡ returned (take n (drop from bytes))
unfolding slice
slice-inside bytes from n h =
    let room : ltb (length bytes) (from + n) ≡ false = ground (arith, h) in rw room

bind-returned : {A : Type 0} (r : Outcome A) → (r >>= returned) ≡ r
bind-returned (returned a) = refl
bind-returned panicked = refl
bind-returned overrun = refl

bind_assoc :
    {A B C : Type 0} (r : Outcome A) (f : A → Outcome B) (g : B → Outcome C)
    → ((r >>= f) >>= g) ≡ (r >>= λ a. f a >>= g)
bind_assoc (returned a) f g = refl
bind_assoc panicked f g = refl
bind_assoc overrun f g = refl

append-nil : (xs : Bytes) → xs ++ [] ≡ xs
append-nil [] = refl
append-nil (x ∷ xs) = ap (λ l. x ∷ l) (append-nil xs)

both_parts :
    (m : Bytes) (at : ℕ) (source : Bytes) (src n size : ℕ)
    → 0 < size
    → n ≤ size
    → src + n ≤ length source
    → at + size ≤ length m
    → (copy_part m at source src n >>= λ m₁. fill_part m₁ at n size)
      ≡ write m at (take n (drop src source) ++ zeros (size - n))
both_parts m at source src zero size positive le inside fits =
    let some_size : ltb 0 size ≡ true = ground (arith, positive) in
    let start : at + 0 ≡ at = omega arith in
    rw some_size (ap (λ k. write m k (zeros (size - 0))) start)
both_parts m at source src (suc k) size positive le inside fits =
    let more : (suc k == 0) ≡ false = ground arith in
    let found = slice-inside source src (suc k) inside in
    let bytes = take (suc k) (drop src source) in
    let len : length bytes ≡ suc k =
      length-take (suc k) (drop src source) (omega (arith, length-drop src source, inside)) in
    elim (Bool-cases (ltb (suc k) size)) [
      | inl short ↦
          let less : suc k < size = ground (arith, short) in
          rw (more, found, short)
            (ap (λ l. write m at bytes >>= λ m₁. write m₁ (at + l) (zeros (size - suc k))) (sym len)
              ∙ write-write m at bytes (zeros (size - suc k))
                  (omega (arith, len, less, fits, length-zeros (size - suc k))))
      | inr whole ↦
          let none_left : size - suc k ≡ 0 = ground (arith, whole, le) in
          rw (more, found, whole, none_left)
            (bind-returned (write m at bytes) ∙ ap (write m at) (sym (append-nil bytes)))
    ]

-- A region of some size that lies in the memory: however far the index is in the source or past its
-- end, copying to the region is the one write of the bytes there are and of zeros for the others.
copy_region-write :
    (source : Bytes) (at from size : ℕ) (frame : Frame)
    → 0 < size
    → at + size ≤ length frame.memory
    → copy_region source at from size frame ≡ (
        write frame.memory at (window source from size) >>= λ memory.
        returned (running (record frame { memory = memory })))
unfolding copy_region
copy_region-write source at from size frame some_size fits =
    let src = min (length source) from in
    let n = min size (length source - src) in
    let parts =
      both_parts frame.memory at source src n size some_size (omega arith) (omega arith) fits in
    let bytes : take n (drop src source) ++ zeros (size - n) ≡ window source from size =
      padded n size (drop src source) (omega (arith, length-drop src source)) (omega arith)
        (least_is size (length source - src) (length-drop src source))
      ∙ ap (resize size 0) (same_rest from source) in
    sym (
      bind_assoc (copy_part frame.memory at source src n) (λ m₁. fill_part m₁ at n size)
        (λ memory. returned (running (record frame { memory = memory }))))
    ∙ ap (λ r. r >>= λ memory. returned (running (record frame { memory = memory })))
        (parts ∙ ap (write frame.memory at) bytes)

length-window : (source : Bytes) (from size : ℕ) → length (window source from size) ≡ size
length-window source from size = length-resize size 0 (drop from source)

region_in :
    (frame grown : Frame) (offset size : ℕ)
    → 0 < size
    → get_memory_region frame offset size ≡ some grown
    → (offset + size ≤ length grown.memory) × (grown.stack ≡ frame.stack)
unfolding get_memory_region
region_in frame grown offset size positive h =
    let sized : (size == 0) ≡ false = ground (arith, positive) in
    elim (Bool-cases (ltb max_buffer_size size)) [
      | inl large ↦ absurd (let bad = rw (sized, large) at h in cc)
      | inr small ↦
          let (long, same, _) =
            get_memory_region_bounds frame grown offset size (rw (sized, small) at h) in
          (long, same)
    ]

-- CALLDATACOPY and CODECOPY of at least one byte end with too little gas or succeed, never in a panic,
-- wherever the index in the source is. If they succeed, the three operands are off the stack, and the
-- region of the memory holds the bytes of the source from the index on, with zeros past its end.
pub copy_from_lem :
    (source : Bytes) (at from size : ℕ) (stack : Stack) (memory : Bytes) (gas : ℕ)
    → 0 < size
    → (copy_from source
          (record { stack = at ∷ from ∷ size ∷ stack; memory = memory; gas_left = gas })
        ≡ returned (halted out_of_gas))
      ⊎ ((after : Frame) × (copy_from source
              (record { stack = at ∷ from ∷ size ∷ stack; memory = memory; gas_left = gas })
            ≡ returned (running after))
          × (after.stack ≡ stack)
          × (slice after.memory at size ≡ returned (window source from size)))
unfolding copy_from
copy_from_lem source at from size stack memory gas positive =
    let frame : Frame = record { stack = stack; memory = memory; gas_left = gas } in
    let sized : (size == 0) ≡ false = ground (arith, positive) in
    elim (Option-cases (get_memory_region frame at size)) [
      | inl poor ↦ inl (rw poor refl)
      | inr (grown, found) ↦
          let (long, same) = region_in frame grown at size positive found in
          elim (Bool-cases (ltb grown.gas_left (num_words size * 3))) [
            | inl short ↦ inl (rw (found, sized, short) refl)
            | inr paid ↦
                let left = grown.gas_left - num_words size * 3 in
                let len = length-window source from size in
                let (memory', wrote, kept, back) =
                  slice-write grown.memory at (window source from size)
                    (omega (arith, len, long)) in
                inr (
                  record { stack = grown.stack; memory = memory'; gas_left = left },
                  rw (found, sized, paid)
                      (copy_region-write source at from size (record grown { gas_left = left })
                          positive long
                        ∙ rw wrote refl),
                  same,
                  subst (λ k. slice memory' at k ≡ returned (window source from size)) len back,
                )
          ]
    ]
