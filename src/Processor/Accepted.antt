-- ===== src/Processor/Accepted.antt =====
-- What a block satisfies that was executed and written, and the report on a wrong total of gas.
use martinez.Base.{
  ℕ, ◌+◌, ◌^◌, ◌≤◌, ◌<◌, ◌≡◌, ◌≢◌, refl, sym, ap, subst, ◌∙◌, Bool, true, false, not, ◌&&◌, List,
  [], ◌∷◌, leb, ◌==◌, ok, arith,
}
use martinez.State.Types.{Db, IntraBlockState, new}
use martinez.Consensus.Types.{accept, reject, invalid, wrong_block_gas}
use martinez.Consensus.Rewards.{rank, byzantium, FinalizationChange}
use martinez.Store.Write.{Writer, Orders, write_to_db}
use martinez.Processor.Types.{
  PartialHeader, MessageWithSender, BlockBodyWithSenders, BlockExecutionSpec, Receipt, Machine,
  SetOrder, Processor, try,
}
use martinez.Processor.Execute.{
  balance_loop, transaction_loop, reward_loop, execute_block_no_post_validation, last_gas,
  gas_by_transaction, fold_bloom, check_receipts, execute_and_write_block, new_processor,
}
use martinez.Consensus.Headers.{fail_if_accept}
use martinez.Processor.Checks.{fail_if-inv, bind_elim, accept-injective, try-inv}
use martinez.Processor.Gas.{IsFrugal}
use martinez.Processor.Blocks.{reported, Executed, done, next, transaction_loop-Executed}

not_equal-true : (a b : ℕ) → a ≢ b → not (a == b) ≡ true
not_equal-true a b h = ground arith

not_equal-false : (a b : ℕ) → not (a == b) ≡ false → a ≡ b
not_equal-false a b h = ground arith

-- The total of the last receipt, or what was used before them.
abbrev last_or : ℕ → List Receipt → ℕ
last_or before [] = before
last_or before (r ∷ rest) = last_or r.cumulative_gas_used rest

last_gas_lem : (receipts : List Receipt) → last_gas receipts ≡ last_or 0 receipts
unfolding last_gas
last_gas_lem [] = refl
last_gas_lem (r ∷ []) = refl
last_gas_lem (r ∷ q ∷ rest) = last_gas_lem (q ∷ rest)

module _ (db : Db) (machine : Machine) (sets : SetOrder) (header : PartialHeader)
    (block_spec : BlockExecutionSpec) where
  -- The last receipt has the total, if there is one.
  last_or-Executed :
      {p p' : Processor} {txs : List MessageWithSender} {receipts : List Receipt}
      → Executed db machine sets header block_spec p txs receipts p'
      → last_or p.cumulative_gas_used receipts ≡ p'.cumulative_gas_used
  last_or-Executed done = refl
  last_or-Executed (next {receipts = receipts} v ran charged shown run) =
      ap (λ c. last_or c receipts) shown ∙ last_or-Executed run

  -- The gas that is reported for the transactions is what they added to the total.
  reported-gas_by_transaction :
      (i : ℕ) {p p' : Processor} {txs : List MessageWithSender} {receipts : List Receipt}
      → Executed db machine sets header block_spec p txs receipts p'
      → p'.cumulative_gas_used < 2 ^ 64
      → p.cumulative_gas_used + reported (gas_by_transaction i p.cumulative_gas_used receipts)
        ≡ p'.cumulative_gas_used
  unfolding gas_by_transaction
  reported-gas_by_transaction i done fits = omega arith
  reported-gas_by_transaction i (next {receipts = receipts} v ran charged shown run) fits =
      let later = reported-gas_by_transaction (i + 1) run fits in
      let total = charged.total in rw shown (omega (arith, later, total, fits))

  -- The run of a block: the balances that are set, the transactions, and the rewards.
  pub record IsRun (block : BlockBodyWithSenders) (receipts : List Receipt)
      (final : IntraBlockState) : Type 0 where
    pub begun : IntraBlockState
    pub balances :
        balance_loop db machine sets header block_spec block_spec.balance_changes new ≡ accept begun
    pub ended : Processor
    pub transactions :
        Executed db machine sets header block_spec
          (record { state = begun; cumulative_gas_used = 0 })
          block.transactions
          receipts
          ended
    pub total : last_gas receipts ≡ ended.cumulative_gas_used
    pub within : ended.cumulative_gas_used ≤ header.gas_limit
    pub changes : List FinalizationChange
    pub finalized : machine.finalize header block.ommers block_spec.revision ≡ accept changes
    pub rewards : reward_loop db machine sets header block_spec changes ended.state ≡ accept final

  execute_block-IsRun :
      (block : BlockBodyWithSenders) (receipts : List Receipt) (final : Processor)
      → IsFrugal machine
      → header.gas_limit < 2 ^ 64
      → execute_block_no_post_validation db machine sets header block_spec block new_processor
        ≡ accept (receipts, final)
      → IsRun block receipts final.state
  unfolding execute_block_no_post_validation
  execute_block-IsRun block receipts final frugal fits h =
      bind_elim (balance_loop db machine sets header block_spec block_spec.balance_changes new) _ h
        (λ begun balances q₁.
          bind_elim (transaction_loop db machine sets header block_spec block.transactions _) _ q₁
            (λ (rs, ended) looped q₂.
              bind_elim (machine.finalize header block.ommers block_spec.revision) _ q₂
                (λ changes finalized q₃.
                  bind_elim (reward_loop db machine sets header block_spec changes ended.state) _ q₃
                    (λ s rewarded q₄.
                      let (run, within) =
                        transaction_loop-Executed db machine sets header block_spec
                          block.transactions _ ended rs frugal fits (omega arith) looped in
                      subst (λ (q : List Receipt × Processor). IsRun block q.0 q.1.state)
                        (accept-injective q₄)
                        (record {
                          begun = begun;
                          balances = balances;
                          ended = ended;
                          transactions = run;
                          total = last_gas_lem rs ∙ last_or-Executed run;
                          within = within;
                          changes = changes;
                          finalized = finalized;
                          rewards = rewarded;
                        })))))

  -- A block that was executed and written.
  pub record IsExecuted {S : Type 0} (writer : Writer S) (orders : IntraBlockState → Orders)
      (block : BlockBodyWithSenders) (store : S) (receipts : List Receipt) (store' : S)
      : Type 0 where
    pub final : IntraBlockState
    pub run : IsRun block receipts final
    pub gas_used : header.gas_used ≡ last_gas receipts
    pub gas_limit : header.gas_used ≤ header.gas_limit
    pub receipts_root :
        leb (rank byzantium) (rank block_spec.revision) ≡ true
        → machine.root_hash receipts ≡ header.receipts_root
    pub logs_bloom : fold_bloom 0 receipts ≡ header.logs_bloom
    pub written : write_to_db writer final (orders final) header.number store ≡ ok store'

  root_checked : (late : Bool) (a b : ℕ) → (late && not (a == b)) ≡ false → late ≡ true → a ≡ b
  root_checked late a b h l = ground arith

  -- If no call of the virtual machine returns more gas than it was given, a block that is executed
  -- and written has these properties: its transactions pass the checks before execution, one after
  -- the other, and each is charged at most its gas limit; the gas they use is the header's and within
  -- the block's limit, which is a u64; the receipts have the header's root, from Byzantium on, and
  -- its bloom; and the database is written once, with the state after the rewards.
  pub execute_and_write_block-IsExecuted :
      {S : Type 0} (writer : Writer S) (orders : IntraBlockState → Orders)
      (block : BlockBodyWithSenders) (store store' : S) (receipts : List Receipt)
      → IsFrugal machine
      → header.gas_limit < 2 ^ 64
      → execute_and_write_block db machine sets header block_spec writer orders block new_processor
          store
        ≡ accept (receipts, store')
      → IsExecuted writer orders block store receipts store'
  unfolding execute_and_write_block check_receipts
  execute_and_write_block-IsExecuted {S} writer orders block store store' receipts frugal fits h =
      bind_elim
        (execute_block_no_post_validation db machine sets header block_spec block new_processor) _ h
        (λ (rs, final) ran r₁.
          bind_elim (check_receipts db machine sets header block_spec rs) _ r₁ (λ u checked r₂.
            bind_elim
              (try (write_to_db writer final.state (orders final.state) header.number store)) _ r₂
              (λ store'' wrote r₃.
                let (c₁, checked₂) =
                  fail_if-inv (not (last_gas rs == header.gas_used)) _ _ checked in
                let (c₂, checked₃) = fail_if-inv _ _ _ checked₂ in
                let c₃ = fail_if_accept (not (fold_bloom 0 rs == header.logs_bloom)) _ checked₃ in
                let run = execute_block-IsRun block rs final frugal fits ran in
                let used = sym (not_equal-false (last_gas rs) header.gas_used c₁) in
                let total = run.total in
                let within = run.within in
                subst (λ (q : List Receipt × S). IsExecuted writer orders block store q.0 q.1)
                  (accept-injective r₃)
                  (record {
                    final = final.state;
                    run = run;
                    gas_used = used;
                    gas_limit = omega (arith, used, total, within);
                    receipts_root = root_checked _ _ _ c₂;
                    logs_bloom = not_equal-false (fold_bloom 0 rs) header.logs_bloom c₃;
                    written = try-inv _ wrote;
                  }))))

  -- A block that runs, but uses another total of gas than its header says, is rejected before
  -- anything is written; the error has both totals, and the gas it lists for the transactions adds
  -- up to the one that they used.
  pub execute_and_write_block-wrong_block_gas :
      {S : Type 0} (writer : Writer S) (orders : IntraBlockState → Orders)
      (block : BlockBodyWithSenders) (store : S) (receipts : List Receipt) (final : Processor)
      → IsFrugal machine
      → header.gas_limit < 2 ^ 64
      → execute_block_no_post_validation db machine sets header block_spec block new_processor
        ≡ accept (receipts, final)
      → last_gas receipts ≢ header.gas_used
      → (execute_and_write_block db machine sets header block_spec writer orders block new_processor
            store
          ≡ reject (
              invalid (
                wrong_block_gas header.gas_used
                  (last_gas receipts)
                  (gas_by_transaction 0 0 receipts))))
        × (reported (gas_by_transaction 0 0 receipts) ≡ last_gas receipts)
  unfolding execute_and_write_block check_receipts
  execute_and_write_block-wrong_block_gas writer orders block store receipts final frugal fits ran
        other =
      let run = execute_block-IsRun block receipts final frugal fits ran in
      let wrong = not_equal-true (last_gas receipts) header.gas_used other in
      let total = run.total in
      let within = run.within in
      let sum = reported-gas_by_transaction 0 run.transactions (omega (arith, within)) in
      (rw (ran, wrong) refl, omega (arith, sum, total))
