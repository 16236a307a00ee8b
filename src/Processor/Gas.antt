-- ===== src/Processor/Gas.antt =====
-- The gas of a transaction, from the virtual machine to the block's total.
use Prim.Native.Nat.{min}
use martinez.Base.{
  ℕ, ◌+◌, ◌-◌, ◌*◌, ◌/◌, ◌%◌, ◌^◌, ◌≤◌, ◌<◌, ◌≡◌, refl, sym, ap, ◌∙◌, ◌⊎◌, ltb, leb, if◌then◌else◌,
  unwrap_or, arith, inl, inr, Bool-cases,
}
use martinez.State.Types.{Db, IntraBlockState}
use martinez.State.Accounts.{add_to_balance, subtract_from_balance, destruct_selfdestructs}
use martinez.Consensus.Types.{fields, max_fee_per_gas, accept, ◌>>=◌, intrinsic_gas_error}
use martinez.Consensus.Fees.{priority_fee_per_gas, effective_gas_price, effective_gas_price_bounds}
use martinez.Consensus.Transactions.{intrinsic_gas}
use martinez.Consensus.Rewards.{rank, homestead, istanbul, london}
use martinez.Consensus.Ommers.{bind_inv}
use martinez.Processor.Types.{
  PartialHeader, MessageWithSender, BlockExecutionSpec, Receipt, CallResult, Machine, SetOrder,
  Processor, try,
}
use martinez.Processor.Execute.{
  max_refund_quotient, earned_refund, refunded, refund_gas, enter_call, destruct_dead,
  execute_transaction,
}
use martinez.Processor.Checks.{fail_if-inv, bind_elim, accept-injective, not_less}

-- A call never returns more gas than it was given.
abbrev pub IsFrugal : Machine → Type 0
IsFrugal machine =
    (header : PartialHeader) (block_spec : BlockExecutionSpec) (txn : MessageWithSender) (gas : ℕ)
    (s s' : IntraBlockState) (res : CallResult)
    → machine.execute header block_spec txn gas s ≡ accept (res, s')
    → res.gas_left ≤ gas

-- The refund is at most a share of the gas that was used.
quotient_bounds :
    (limit left earned q : ℕ)
    → left ≤ limit
    → limit < 2 ^ 64
    → (q ≡ 2) ⊎ (q ≡ 5)
    → (left ≤ (left + min earned ((limit + 2 ^ 64 - left) % 2 ^ 64 / q)) % 2 ^ 64)
      × ((left + min earned ((limit + 2 ^ 64 - left) % 2 ^ 64 / q)) % 2 ^ 64
          ≤ left + (limit - left) / q)
      × ((left + min earned ((limit + 2 ^ 64 - left) % 2 ^ 64 / q)) % 2 ^ 64 ≤ left + earned)
      × (2 * ((left + min earned ((limit + 2 ^ 64 - left) % 2 ^ 64 / q)) % 2 ^ 64) ≤ left + limit)
quotient_bounds limit left earned q small fits either =
    let used : (limit + 2 ^ 64 - left) % 2 ^ 64 ≡ limit - left = omega arith in
    elim either [
      | inl two ↦ rw (used, two) (omega arith, omega arith, omega arith, omega arith)
      | inr five ↦ rw (used, five) (omega arith, omega arith, omega arith, omega arith)
    ]

module _ (db : Db) (machine : Machine) (sets : SetOrder) (header : PartialHeader)
    (block_spec : BlockExecutionSpec) where
  quotient_cases :
      (max_refund_quotient db machine sets header block_spec ≡ 2)
      ⊎ (max_refund_quotient db machine sets header block_spec ≡ 5)
  quotient_cases = elim (Bool-cases (leb (rank london) (rank block_spec.revision))) [
    | inl late ↦ rw late (inr refl)
    | inr early ↦ rw early (inl refl)
  ]

  -- For gas that is left within the gas limit of a transaction that covers the base fee, the refund
  -- puts the gas that is given back, at the price per gas, on the sender's balance. What is given
  -- back is at least the gas left and at most the limit; the refund is at most the earned one, and
  -- at most a half of the gas used, from London on a fifth.
  pub refund_gas_bounds :
      (txn : MessageWithSender) (gas_left : ℕ) (s : IntraBlockState)
      → gas_left ≤ (fields txn.message).gas_limit
      → (fields txn.message).gas_limit < 2 ^ 64
      → unwrap_or 0 header.base_fee_per_gas ≤ max_fee_per_gas txn.message
      → max_fee_per_gas txn.message < 2 ^ 256
      → (back price : ℕ) × (refund_gas db machine sets header block_spec txn gas_left s ≡ (
          try (add_to_balance db txn.sender (back * price % 2 ^ 256) s) >>= λ s'.
          accept (back, s')))
        × (effective_gas_price txn.message (unwrap_or 0 header.base_fee_per_gas) ≡ accept price)
        × (gas_left ≤ back)
        × (back ≤ (fields txn.message).gas_limit)
        × (back ≤ gas_left + earned_refund db machine sets header block_spec s)
        × (back
            ≤ gas_left
              + ((fields txn.message).gas_limit - gas_left)
                / (if leb (rank london) (rank block_spec.revision) then 5 else 2))
  unfolding refund_gas
  refund_gas_bounds txn gas_left s small fits covers fee =
      let limit = (fields txn.message).gas_limit in
      let back = refunded db machine sets header block_spec limit gas_left s in
      let (price, tip, priced, _, _, _, _) =
        effective_gas_price_bounds txn.message (unwrap_or 0 header.base_fee_per_gas) covers fee in
      let (low, share, earned, half) =
        quotient_bounds limit gas_left (earned_refund db machine sets header block_spec s) _ small
          fits quotient_cases in
      (back, price, rw priced refl, priced, low, omega arith, earned, share)

  -- What the execution of a transaction adds to the gas used in the block.
  pub record IsCharged (txn : MessageWithSender) (before after : ℕ) : Type 0 where
    pub used : ℕ
    pub total : after ≡ before + used
    pub at_most : used ≤ (fields txn.message).gas_limit
    -- No refund takes more than half of the intrinsic gas.
    pub at_least :
        intrinsic_gas txn.message
          (leb (rank homestead) (rank block_spec.revision))
          (leb (rank istanbul) (rank block_spec.revision))
        ≤ 2 * used

  refund_gas-left :
      (txn : MessageWithSender) (gas_left : ℕ) (s s' : IntraBlockState) (back : ℕ)
      → refund_gas db machine sets header block_spec txn gas_left s ≡ accept (back, s')
      → back ≡ refunded db machine sets header block_spec (fields txn.message).gas_limit gas_left s
  unfolding refund_gas
  refund_gas-left txn gas_left s s' back h =
      let (price, _, r) =
        bind_inv (effective_gas_price txn.message (unwrap_or 0 header.base_fee_per_gas)) _ h in
      let (s'', _, done) =
        bind_inv
          (try (
            add_to_balance db txn.sender
              (refunded db machine sets header block_spec (fields txn.message).gas_limit gas_left s
                * price
                % 2 ^ 256)
              s))
          _ r in
      cc

  charged_used :
      (limit g0 left earned q before : ℕ)
      → limit < 2 ^ 64
      → before + limit < 2 ^ 64
      → g0 ≤ limit
      → left ≤ limit - g0
      → (q ≡ 2) ⊎ (q ≡ 5)
      → (used : ℕ) × ((before
              + (limit
                  + 2 ^ 64
                  - (left + min earned ((limit + 2 ^ 64 - left) % 2 ^ 64 / q)) % 2 ^ 64)
                % 2 ^ 64)
            % 2 ^ 64
          ≡ before + used)
        × (used ≤ limit)
        × (g0 ≤ 2 * used)
  charged_used limit g0 left earned q before fits room covered small either =
      let (low, _, _, half) = quotient_bounds limit left earned q (omega arith) fits either in
      (
        limit - (left + min earned ((limit + 2 ^ 64 - left) % 2 ^ 64 / q)) % 2 ^ 64,
        omega arith,
        omega arith,
        omega arith,
      )

  -- If no call returns more gas than it was given and the gas limit fits, an executed transaction
  -- adds at most its gas limit to the total.
  pub execute_transaction-IsCharged :
      (txn : MessageWithSender) (p p' : Processor) (receipt : Receipt)
      → IsFrugal machine
      → p.cumulative_gas_used + (fields txn.message).gas_limit < 2 ^ 64
      → execute_transaction db machine sets header block_spec txn p ≡ accept (receipt, p')
      → IsCharged txn p.cumulative_gas_used p'.cumulative_gas_used
        × (receipt.cumulative_gas_used ≡ p'.cumulative_gas_used)
  unfolding execute_transaction
  execute_transaction-IsCharged txn p p' receipt frugal room h =
      let limit = (fields txn.message).gas_limit in
      let fee = unwrap_or 0 header.base_fee_per_gas in
      bind_elim (effective_gas_price txn.message fee) _ h (λ price _ r₁.
        bind_elim (try (subtract_from_balance db txn.sender (limit * price % 2 ^ 256) _)) _ r₁
          (λ s₂ _ r₂.
            bind_elim
              (enter_call db machine sets header block_spec (fields txn.message).action txn s₂) _ r₂
              (λ s₃ _ r₃.
                let (c, r₄) = fail_if-inv (ltb limit _) intrinsic_gas_error _ r₃ in
                bind_elim (machine.execute header block_spec txn _ _) _ r₄ (λ (res, s₅) ran r₅.
                  bind_elim (refund_gas db machine sets header block_spec txn res.gas_left s₅) _ r₅
                    (λ (back, s₆) refunds r₆.
                      bind_elim (priority_fee_per_gas txn.message fee) _ r₆ (λ tip _ r₇.
                        bind_elim (try (add_to_balance db header.beneficiary _ s₆)) _ r₇ (λ s₇ _ r₈.
                          bind_elim
                            (try (destruct_selfdestructs db (sets.iterate s₇.self_destructs) s₇)) _
                            r₈
                            (λ s₈ _ r₉.
                              bind_elim (destruct_dead db machine sets header block_spec s₈) _ r₉
                                (λ s₉ _ r.
                                  let done = accept-injective r in
                                  let (used, sum, at_most, at_least) =
                                    charged_used limit _ res.gas_left
                                      (earned_refund db machine sets header block_spec s₅)
                                      (max_refund_quotient db machine sets header block_spec)
                                      p.cumulative_gas_used (omega arith) room (not_less limit _ c)
                                      (frugal header block_spec txn _ _ s₅ res ran)
                                      quotient_cases in
                                  let total =
                                    sym (
                                      ap (λ (q : Receipt × Processor). q.1.cumulative_gas_used)
                                        done)
                                    ∙ ap
                                        (λ b.
                                          (p.cumulative_gas_used + (limit + 2 ^ 64 - b) % 2 ^ 64)
                                          % 2 ^ 64)
                                        (refund_gas-left txn res.gas_left s₅ s₆ back refunds)
                                    ∙ sum in
                                  (
                                    record {
                                      used = used;
                                      total = total;
                                      at_most = at_most;
                                      at_least = at_least;
                                    },
                                    sym (
                                          ap (λ (q : Receipt × Processor). q.0.cumulative_gas_used)
                                            done)
                                        ∙ ap (λ (q : Receipt × Processor). q.1.cumulative_gas_used)
                                            done,
                                  ))))))))))
