-- ===== src/Evm/Log.antt =====
-- `log2floor` of src/execution/evm/instructions/arithmetic.rs against the powers of two.
use martinez.Base.{
  ℕ, zero, suc, ◌+◌, ◌-◌, ◌*◌, ◌/◌, ◌%◌, ◌^◌, ◌≤◌, ◌<◌, false, ◌≡◌, ◌≢◌, refl, ap, ◌∙◌, ◌==◌, arith,
  inl, inr, Bool-cases, ==_iff,
}
use native.Mathlib.Nat.{pow-suc}
use martinez.Evm.Power.{bit_length, leading_zeros, last_bit, log2floor}

no_bits : (n : ℕ) → bit_length n 0 ≡ 0
unfolding bit_length
no_bits zero = refl
no_bits (suc n) = refl

-- `suc k` bits are used.
abbrev Uses : ℕ → ℕ → ℕ → ℕ → Type 0
Uses n v length k = (length ≡ suc k) × (suc k ≤ n) × (2 ^ k ≤ v) × (v < 2 ^ suc k)

bit_length-Uses : (n v : ℕ) → v ≢ 0 → v < 2 ^ n → (k : ℕ) × Uses n v (bit_length n v) k
unfolding bit_length
bit_length-Uses zero v ne h = absurd (ne (omega arith))
bit_length-Uses (suc n) v ne h = elim (Bool-cases (v == 0)) [
  | inl none_set ↦ absurd (ne ((==_iff _ _).0 none_set))
  | inr some_set ↦ elim (Bool-cases (v / 2 == 0)) [
    | inl last ↦
        let low : v / 2 ≡ 0 = (==_iff _ _).0 last in
        let e : bit_length n (v / 2) ≡ 0 = ap (bit_length n) low ∙ no_bits n in
        (0, (rw (bit_length, some_set) (ap suc e), omega arith, omega arith, omega arith))
    | inr more ↦
        let doubled = pow-suc 2 n in
        let (k, (e, le, lower, upper)) = bit_length-Uses n (v / 2) (ground arith) (omega arith) in
        let p₁ = pow-suc 2 k in
        let p₂ = pow-suc 2 (suc k) in
        (suc k, (rw (bit_length, some_set) (ap suc e), omega arith, omega arith, omega arith))
  ]
]

shifted : (k : ℕ) → 2 ^ (k + 128) ≡ 2 ^ k * 2 ^ 128
shifted zero = refl
shifted (suc k) =
    let p = pow-suc 2 (k + 128) in
    let q = pow-suc 2 k in
    let ih = shifted k in
    let e : suc k + 128 ≡ suc (k + 128) = omega arith in ap (λ n. 2 ^ n) e ∙ omega arith

not_zero : (n : ℕ) → n ≢ 0 → (n == 0) ≡ false
not_zero n h = ground arith

last_bit_place :
    (l v k : ℕ) → bit_length 128 v ≡ suc k → suc k ≤ 128 → 128 ≤ l → last_bit l v ≡ k + (l - 128)
unfolding last_bit leading_zeros
last_bit_place l v k e le fits =
    let left : (l - (128 - suc k) == 0) ≡ false = not_zero (l - (128 - suc k)) (omega arith) in
    rw (e, left) (omega arith)

place :
    (value : ℕ)
    → value ≢ 0
    → value < 2 ^ 256
    → (k : ℕ) × (log2floor value ≡ k) × (2 ^ k ≤ value) × (value < 2 ^ suc k)
unfolding log2floor
place value ne h = elim (Bool-cases (value / 2 ^ 128 == 0)) [
  | inl small ↦
      let high : value / 2 ^ 128 ≡ 0 = (==_iff _ _).0 small in
      let same : value % 2 ^ 128 ≡ value = omega arith in
      let other : (value % 2 ^ 128 == 0) ≡ false = not_zero _ (omega arith) in
      let (k, (e, le, lower, upper)) =
        bit_length-Uses 128 (value % 2 ^ 128) (omega arith) (omega arith) in
      let at_k : k + (128 - 128) ≡ k = omega arith in
      (
        k,
        rw (small, other) (last_bit_place 128 (value % 2 ^ 128) k e le (omega arith) ∙ at_k),
        omega arith,
        omega arith,
      )
  | inr big ↦
      let high : value / 2 ^ 128 ≢ 0 = ground arith in
      let (k, (e, le, lower, upper)) = bit_length-Uses 128 (value / 2 ^ 128) high (omega arith) in
      let s₁ = shifted k in
      let s₂ = shifted (suc k) in
      let over : 2 ^ suc (k + 128) ≡ 2 ^ (suc k + 128) = ap (λ n. 2 ^ n) (omega arith) in
      let at_k : k + (256 - 128) ≡ k + 128 = omega arith in
      (
        k + 128,
        rw big (last_bit_place 256 (value / 2 ^ 128) k e le (omega arith) ∙ at_k),
        omega arith,
        omega arith,
      )
]

-- Of a number that is not zero and below 2^256, `log2floor` is the place of its highest bit.
pub log2floor_lem :
    (value : ℕ)
    → value ≢ 0
    → value < 2 ^ 256
    → (2 ^ log2floor value ≤ value) × (value < 2 ^ suc (log2floor value))
log2floor_lem value ne h = let (k, e, lower, upper) = place value ne h in rw e (lower, upper)
