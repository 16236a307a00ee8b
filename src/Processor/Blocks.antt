-- ===== src/Processor/Blocks.antt =====
-- The execution of a block's transactions, one after the other, and the checks of the whole block.
use martinez.Base.{ℕ, ◌+◌, ◌^◌, ◌≤◌, ◌<◌, ◌≡◌, subst, List, [], ◌∷◌, arith}
use martinez.State.Types.{Db}
use martinez.Consensus.Types.{accept}
use martinez.Processor.Types.{
  PartialHeader, MessageWithSender, BlockExecutionSpec, Receipt, Machine, SetOrder, Processor,
}
use martinez.Processor.Execute.{validate_transaction, execute_transaction, transaction_loop}
use martinez.Processor.Checks.{
  IsExecutable, validate_transaction-IsExecutable, bind_elim, accept-injective,
}
use martinez.Processor.Gas.{IsFrugal, IsCharged, execute_transaction-IsCharged}

-- The gas in a report.
abbrev pub reported : List (ℕ × ℕ) → ℕ
reported [] = 0
reported ((i, gas) ∷ rest) = gas + reported rest

module _ (db : Db) (machine : Machine) (sets : SetOrder) (header : PartialHeader)
    (block_spec : BlockExecutionSpec) where
  -- The transactions lead from one processor to another and leave the receipts: each passes the
  -- checks, is executed, and is charged at most its gas limit.
  pub data Executed : Processor → List MessageWithSender → List Receipt → Processor → Type 0 where
    done : {p : Processor} → Executed p [] [] p
    next :
        {p p₁ p₂ p' : Processor} {tx : MessageWithSender} {rest : List MessageWithSender}
        {receipt : Receipt} {receipts : List Receipt}
        → IsExecutable db machine sets header block_spec tx p p₁
        → execute_transaction db machine sets header block_spec tx p₁ ≡ accept (receipt, p₂)
        → IsCharged db machine sets header block_spec tx p.cumulative_gas_used
            p₂.cumulative_gas_used
        → receipt.cumulative_gas_used ≡ p₂.cumulative_gas_used
        → Executed p₂ rest receipts p'
        → Executed p (tx ∷ rest) (receipt ∷ receipts) p'

  -- The gas used never passes the block's limit.
  pub transaction_loop-Executed :
      (txs : List MessageWithSender) (p p' : Processor) (receipts : List Receipt)
      → IsFrugal machine
      → header.gas_limit < 2 ^ 64
      → p.cumulative_gas_used ≤ header.gas_limit
      → transaction_loop db machine sets header block_spec txs p ≡ accept (receipts, p')
      → Executed p txs receipts p' × (p'.cumulative_gas_used ≤ header.gas_limit)
  unfolding transaction_loop
  transaction_loop-Executed [] p p' receipts frugal fits below h =
      subst
        (λ (q : List Receipt × Processor).
          Executed p [] q.0 q.1 × (q.1.cumulative_gas_used ≤ header.gas_limit))
        (accept-injective h) (done, below)
  transaction_loop-Executed (tx ∷ rest) p p' receipts frugal fits below h =
      bind_elim (validate_transaction db machine sets header block_spec tx p) _ h (λ p₁ valid r₁.
        bind_elim (execute_transaction db machine sets header block_spec tx p₁) _ r₁
          (λ (receipt, p₂) ran r₂.
            bind_elim (transaction_loop db machine sets header block_spec rest p₂) _ r₂
              (λ (later, p₃) looped r.
                let v =
                  (validate_transaction-IsExecutable db machine sets header block_spec tx p p₁ fits
                      below).0
                    valid in
                let fit = v.gas in
                let same = v.same_total in
                let (charged, shown) =
                  execute_transaction-IsCharged db machine sets header block_spec tx p₁ p₂ receipt
                    frugal (omega (arith, same, fit)) ran in
                let charged' =
                  subst
                    (λ c. IsCharged db machine sets header block_spec tx c p₂.cumulative_gas_used)
                    same charged in
                let total = charged'.total in
                let at_most = charged'.at_most in
                let (run, end) =
                  transaction_loop-Executed rest p₂ p₃ later frugal fits (omega arith) looped in
                subst
                  (λ (q : List Receipt × Processor).
                    Executed p (tx ∷ rest) q.0 q.1 × (q.1.cumulative_gas_used ≤ header.gas_limit))
                  (accept-injective r) (next v ran charged' shown run, end))))
