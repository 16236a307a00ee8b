-- ===== src/Evm/Bytes.antt =====
-- Bytes of a number, and parts of the memory.
use martinez.Base.{
  ℕ, zero, suc, ◌+◌, ◌-◌, ◌*◌, ◌/◌, ◌%◌, ◌^◌, ◌≤◌, ◌<◌, ◌≡◌, refl, sym, ap, subst, ◌∙◌, some, [],
  ◌∷◌, ◌++◌, false, ltb, length, take, length-resize, length-append, take-append, arith, inl, inr,
  Bool-cases,
}
use native.Mathlib.Nat.{
  pow-suc, add-mul, mul_right_comm, mul_assoc, div-div-eq-div-mul, div-add-mod',
}
use martinez.Evm.Stack.{returned}
use martinez.Evm.Memory.{
  Bytes, Frame, num_words, memory_cost, grow_memory, get_memory_region_u64, max_buffer_size, drop,
  slice, write, to_be_bytes, from_be_bytes,
}

pub length-to_be_bytes : (n v : ℕ) → length (to_be_bytes n v) ≡ n
unfolding to_be_bytes
length-to_be_bytes zero v = refl
length-to_be_bytes (suc n) v = ap suc (length-to_be_bytes n v)

pub length-take : (n : ℕ) (xs : Bytes) → n ≤ length xs → length (take n xs) ≡ n
length-take zero xs h = refl
length-take (suc n) [] h = absurd (omega (arith, h))
length-take (suc n) (x ∷ xs) h = ap suc (length-take n xs (omega arith))

pub length-drop : (n : ℕ) (xs : Bytes) → length (drop n xs) ≡ length xs - n
length-drop zero xs = omega arith
length-drop (suc n) [] = omega arith
length-drop (suc n) (x ∷ xs) = length-drop n xs ∙ omega arith

pub drop-append : (xs ys : Bytes) → drop (length xs) (xs ++ ys) ≡ ys
drop-append [] ys = refl
drop-append (x ∷ xs) ys = drop-append xs ys

-- What is written within the memory is there, and the memory keeps its length.
pub slice-write :
    (memory : Bytes) (at : ℕ) (new : Bytes)
    → at + length new ≤ length memory
    → (after : Bytes) × (write memory at new ≡ returned after)
      × (length after ≡ length memory)
      × (slice after at (length new) ≡ returned new)
unfolding slice write
slice-write memory at new h =
    let room : ltb (length memory) (at + length new) ≡ false = ground arith in
    let front = length-take at memory (omega arith) in
    let same : length (take at memory ++ (new ++ drop (at + length new) memory)) ≡ length memory =
      length-append (take at memory) (new ++ drop (at + length new) memory)
      ∙ omega (
        arith,
        front,
        length-append new (drop (at + length new) memory),
        length-drop (at + length new) memory,
      ) in
    let fits : ltb (length (take at memory ++ (new ++ drop (at + length new) memory)))
          (at + length new)
        ≡ false =
      ground (arith, same) in
    (
      take at memory ++ (new ++ drop (at + length new) memory),
      rw room,
      same,
      rw fits (
          ap returned (
            ap
              (λ k.
                take (length new)
                  (drop k (take at memory ++ (new ++ drop (at + length new) memory))))
              (sym front)
            ∙ ap (take (length new))
                (drop-append (take at memory) (new ++ drop (at + length new) memory))
            ∙ take-append new (drop (at + length new) memory))),
    )

some-injective : {a b : Frame} → some a ≡ some b → a ≡ b
some-injective h = cc

pub get_memory_region_bounds :
    (frame grown : Frame) (offset size : ℕ)
    → get_memory_region_u64 frame offset size ≡ some grown
    → (offset + size ≤ length grown.memory)
      × (grown.stack ≡ frame.stack)
      × (offset ≤ max_buffer_size)
unfolding get_memory_region_u64 grow_memory num_words
get_memory_region_bounds frame grown offset size h =
    elim (Bool-cases (ltb max_buffer_size offset)) [
      | inl far ↦ absurd (let bad = rw far at h in cc)
      | inr near ↦
          let near_le : offset ≤ max_buffer_size = ground (arith, near) in
          elim (Bool-cases (ltb (length frame.memory) (offset + size))) [
            | inr long ↦
                let same = some-injective (rw (near, long) at h) in
                subst
                  (λ (g : Frame).
                    (offset + size ≤ length g.memory)
                    × (g.stack ≡ frame.stack)
                    × (offset ≤ max_buffer_size))
                  same (ground (arith, long), refl, near_le)
            | inl short ↦
                let grows : grow_memory frame (offset + size) ≡ some grown =
                  rw (near, short) at h in
                elim (Bool-cases (
                  ltb frame.gas_left (
                    memory_cost (num_words (offset + size))
                    - memory_cost (length frame.memory / 32)))) [
                      | inl poor ↦ absurd (let bad = rw poor at grows in cc)
                      | inr paid ↦
                          let same = some-injective (rw paid at grows) in
                          let size' =
                            length-resize ((offset + size + 31) / 32 * 32) 0 frame.memory in
                          subst
                            (λ (g : Frame).
                              (offset + size ≤ length g.memory)
                              × (g.stack ≡ frame.stack)
                              × (offset ≤ max_buffer_size))
                            same (omega (arith, size'), refl, near_le)
                    ]
          ]
    ]

digit_step :
    (F acc d r q P v : ℕ)
    → r * 256 + d ≡ q
    → F + q * P ≡ (acc * 256 + d) * P + v
    → F + r * (P * 256) ≡ acc * (P * 256) + v
digit_step F acc d r q P v e h =
    let split : q * P ≡ (r * 256 + d) * P = ap (λ k. k * P) (sym e) in
    omega (
      arith,
      h,
      split,
      add-mul (r * 256) d P,
      add-mul (acc * 256) d P,
      mul_right_comm r 256 P,
      mul_right_comm acc 256 P,
      mul_assoc r P 256,
      mul_assoc acc P 256,
    )

-- The digits above the bytes are lost.
from_be_bytes-lost :
    (n acc v : ℕ) → from_be_bytes acc (to_be_bytes n v) + v / 256 ^ n * 256 ^ n ≡ acc * 256 ^ n + v
unfolding from_be_bytes to_be_bytes
from_be_bytes-lost zero acc v = omega arith
from_be_bytes-lost (suc n) acc v = rw pow-suc (
    rw (sym (div-div-eq-div-mul v (256 ^ n) 256)) (
      digit_step _ acc (v / 256 ^ n % 256) (v / 256 ^ n / 256) (v / 256 ^ n) (256 ^ n) v
        (div-add-mod' (v / 256 ^ n) 256) (from_be_bytes-lost n (acc * 256 + v / 256 ^ n % 256) v)))

pub from_be_bytes-to_be_bytes : (v : ℕ) → v < 2 ^ 256 → from_be_bytes 0 (to_be_bytes 32 v) ≡ v
from_be_bytes-to_be_bytes v h =
    let small : v / 256 ^ 32 ≡ 0 = omega arith in
    let sum = from_be_bytes-lost 32 0 v in omega (arith, sum, small)
