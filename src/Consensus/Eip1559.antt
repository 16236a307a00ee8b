-- ===== src/Consensus/Eip1559.antt =====
-- The rules of EIP-1559 for the base fee of a block and for the gas limit at the fork, and that
-- consensus/base.rs follows them.
use Prim.Native.Nat.{max}
use martinez.Base.{
  ℕ, ◌+◌, ◌-◌, ◌*◌, ◌/◌, ◌%◌, ◌^◌, ◌<◌, true, false, Option, none, some, ◌≡◌, ◌≢◌, refl, sym, ap,
  ◌∙◌, ◌⊎◌, inl, inr, ◌↔◌, ltb, ◌==◌, ltb→lt, arith, Bool-cases,
}
use martinez.Consensus.Types.{BlockHeader, Verdict, accept, reject, ◌>>=◌}
use martinez.Consensus.Fees.{
  base_fee_delta, next_base_fee, unwrap_fee, fee_after_fork, elasticity_multiplier,
  expected_base_fee_per_gas,
}

-- The next fee, after a block that used so much gas of its target: an eighth of the fee times the
-- distance, over the target, in numbers of 256 bits.
abbrev pub IsNextFee : (base_fee target used next : ℕ) → Type 0
IsNextFee base_fee target used next =
    ((used ≡ target) × (next ≡ base_fee))
    ⊎ ((target < used)
        × (0 < target)
        × (next ≡ (base_fee + max 1 (base_fee * (used - target) % 2 ^ 256 / target / 8)) % 2 ^ 256))
    ⊎ ((used < target) × (next ≡ base_fee - base_fee * (target - used) % 2 ^ 256 / target / 8))

-- The base fee that a block has after its parent: none before the fork, 10^9 at it, and then what
-- follows from the parent's, whose target is half its gas limit.
abbrev pub HasBaseFee : Option ℕ → BlockHeader → BlockHeader → Option ℕ → Type 0
HasBaseFee none header parent fee = fee ≡ none
HasBaseFee (some fork) header parent fee =
    ((header.number < fork) × (fee ≡ none))
    ⊎ ((header.number ≡ fork) × (fee ≡ some 1000000000))
    ⊎ ((fork < header.number)
        × (last : ℕ) × (next : ℕ) × (parent.base_fee_per_gas ≡ some last)
        × (fee ≡ some next)
        × IsNextFee last (parent.gas_limit / 2) parent.gas_used next)

-- The parent's gas limit as it counts: twice at the fork, in a number of 64 bits.
abbrev pub CountsAs : Option ℕ → BlockHeader → BlockHeader → ℕ → Type 0
CountsAs none header parent limit = limit ≡ parent.gas_limit
CountsAs (some fork) header parent limit =
    ((header.number ≡ fork) × (limit ≡ 2 * parent.gas_limit % 2 ^ 64))
    ⊎ ((header.number ≢ fork) × (limit ≡ parent.gas_limit))

value_eq {ℓ} : {A : Type ℓ} {a b : A} → accept a ≡ accept b → a ≡ b
value_eq h = cc

delta_value : (fee d t : ℕ) → 0 < t → base_fee_delta fee d t ≡ accept (fee * d % 2 ^ 256 / t / 8)
unfolding base_fee_delta
delta_value fee d t pos = (let test : (t == 0) ≡ false = ground arith in rw test refl)

order : (a b : ℕ) → (a < b) ⊎ (a ≡ b) ⊎ (b < a)
order a b = elim (Bool-cases (ltb a b)) [
  | inl less ↦ inl (ltb→lt a b less)
  | inr more ↦ elim (Bool-cases (a == b)) [
    | inl same ↦ inr (inl (ground arith))
    | inr other ↦ inr (inr (ground arith))
  ]
]

bind_inv :
    {A B : Type 0} (m : Verdict A) (f : A → Verdict B) {b : B}
    → (m >>= f) ≡ accept b
    → (a : A) × (m ≡ accept a) × (f a ≡ accept b)
bind_inv (accept a) f h = (a, refl, h)
bind_inv (reject e) f h = cc

unwrap_inv : (o : Option ℕ) {fee : ℕ} → unwrap_fee o ≡ accept fee → o ≡ some fee
unwrap_inv none h = cc
unwrap_inv (some fee) h = cc

module _ (fee target used : ℕ) where
  at_target : used ≡ target → next_base_fee fee target used ≡ accept fee
  unfolding next_base_fee
  at_target e = (let same : (used == target) ≡ true = ground arith in rw same refl)

  above_target :
      target < used
      → 0 < target
      → next_base_fee fee target used
        ≡ accept ((fee + max 1 (fee * (used - target) % 2 ^ 256 / target / 8)) % 2 ^ 256)
  unfolding next_base_fee
  above_target lt pos =
      let other : (used == target) ≡ false = ground arith in
      let above : ltb target used ≡ true = ground arith in
      rw (other, above, delta_value fee (used - target) target pos) refl

  below_target :
      used < target
      → next_base_fee fee target used ≡ accept (fee - fee * (target - used) % 2 ^ 256 / target / 8)
  unfolding next_base_fee
  below_target lt =
      let other : (used == target) ≡ false = ground arith in
      let below : ltb target used ≡ false = ground arith in
      rw (other, below, delta_value fee (target - used) target (omega arith)) refl

  no_target :
      target ≡ 0 → target < used → (next : ℕ) → next_base_fee fee target used ≡ accept next → ⊥
  unfolding next_base_fee base_fee_delta
  no_target e lt next h =
      let other : (used == target) ≡ false = ground arith in
      let above : ltb target used ≡ true = ground arith in
      let zero_target : (target == 0) ≡ true = ground arith in
      let stuck = rw (other, above, zero_target) at h in cc

  next_base_fee-IsNextFee :
      (next : ℕ) → (next_base_fee fee target used ≡ accept next) ↔ IsNextFee fee target used next
  next_base_fee-IsNextFee next = (
    λ h. elim (order used target) [
      | inl less ↦ inr (inr (less, value_eq (sym h ∙ below_target less)))
      | inr (inl same) ↦ inl (same, value_eq (sym h ∙ at_target same))
      | inr (inr more) ↦ elim (Bool-cases (target == 0)) [
        | inl empty ↦ absurd (no_target (ground arith) more next h)
        | inr filled ↦
            let pos : 0 < target = ground arith in
            inr (inl (more, pos, value_eq (sym h ∙ above_target more pos)))
      ]
    ],
    λ rule. elim rule [
      | inl (same, e) ↦ at_target same ∙ ap accept (sym e)
      | inr (inl (more, pos, e)) ↦ above_target more pos ∙ ap accept (sym e)
      | inr (inr (less, e)) ↦ below_target less ∙ ap accept (sym e)
    ],
  )

after_fork :
    (parent : BlockHeader) (o : Option ℕ)
    → (fee_after_fork parent ≡ accept o) ↔ (
        (last : ℕ) × (next : ℕ) × (parent.base_fee_per_gas ≡ some last)
        × (o ≡ some next)
        × IsNextFee last (parent.gas_limit / 2) parent.gas_used next)
after_fork parent o = (
  λ h.
      let (last, found, h₁) = bind_inv (unwrap_fee parent.base_fee_per_gas) _ h in
      let (next, e, h₂) =
        bind_inv (next_base_fee last (parent.gas_limit / elasticity_multiplier) parent.gas_used) _
          h₁ in
      (
        last,
        next,
        unwrap_inv parent.base_fee_per_gas found,
        sym (value_eq h₂),
        (next_base_fee-IsNextFee last (parent.gas_limit / 2) parent.gas_used next).0 e,
      ),
  λ (last, next, found, e, rule).
      let step =
        (next_base_fee-IsNextFee last (parent.gas_limit / 2) parent.gas_used next).1 rule in
      rw (found, step) (ap accept (sym e)),
)

-- The expected base fee is the one of the rules.
pub expected_base_fee_per_gas-HasBaseFee :
    (eip1559_block : Option ℕ) (header parent : BlockHeader) (fee : Option ℕ)
    → (expected_base_fee_per_gas eip1559_block header parent ≡ accept fee)
      ↔ HasBaseFee eip1559_block header parent fee
unfolding expected_base_fee_per_gas
expected_base_fee_per_gas-HasBaseFee none header parent fee =
    (λ h. sym (value_eq h), λ e. ap accept (sym e))
expected_base_fee_per_gas-HasBaseFee (some fork) header parent fee = (
  λ h. elim (order header.number fork) [
    | inl less ↦
        let before : ltb header.number fork ≡ true = ground arith in
        inl (less, sym (value_eq (rw before at h)))
    | inr (inl same) ↦
        let before : ltb header.number fork ≡ false = ground arith in
        let at_fork : (header.number == fork) ≡ true = ground arith in
        inr (inl (same, sym (value_eq (rw (before, at_fork) at h))))
    | inr (inr more) ↦
        let before : ltb header.number fork ≡ false = ground arith in
        let at_fork : (header.number == fork) ≡ false = ground arith in
        let (last, next, found, e, rule) = (after_fork parent fee).0 (rw (before, at_fork) at h) in
        inr (inr (more, last, next, found, e, rule))
  ],
  λ rule. elim rule [
    | inl (less, e) ↦
        let before : ltb header.number fork ≡ true = ground arith in rw before (ap accept (sym e))
    | inr (inl (same, e)) ↦
        let before : ltb header.number fork ≡ false = ground arith in
        let at_fork : (header.number == fork) ≡ true = ground arith in
        rw (before, at_fork) (ap accept (sym e))
    | inr (inr (more, last, next, found, e, after)) ↦
        let before : ltb header.number fork ≡ false = ground arith in
        let at_fork : (header.number == fork) ≡ false = ground arith in
        rw (before, at_fork) ((after_fork parent fee).1 (last, next, found, e, after))
  ],
)
