-- ===== src/Processor/Execute.antt =====
-- execution/processor.rs: the operations of the processor; execution/mod.rs: `execute_block`.
use Prim.Native.Nat.{bit_or, min}
use martinez.Base.{
  ℕ, ◌+◌, ◌-◌, ◌*◌, ◌/◌, ◌%◌, ◌^◌, not, List, [], ◌∷◌, ◌==◌, ltb, leb, ◌&&◌, if◌then◌else◌,
  unwrap_or, panic,
}
use martinez.State.Types.{Address, Db, IntraBlockState, empty_hash, new}
use martinez.State.Accounts.{
  get_code_hash, get_nonce, get_balance, set_balance, set_nonce, add_to_balance,
  subtract_from_balance, destruct_selfdestructs, destruct_touched_dead,
}
use martinez.State.Access.{access_account, access_storage}
use martinez.State.Slots.{clear_journal_and_substate, finalize_transaction}
use martinez.Consensus.Types.{
  AccessListItem, TransactionAction, call, create, fields, access_list, max_fee_per_gas, Verdict,
  accept, reject, fault, ◌>>=◌, ◌>>◌, fail_if, sender_no_eoa, wrong_nonce, intrinsic_gas_error,
  insufficient_funds, block_gas_limit_exceeded, wrong_block_gas, wrong_receipts_root,
  wrong_logs_bloom,
}
use martinez.Consensus.Fees.{priority_fee_per_gas, effective_gas_price}
use martinez.Consensus.Transactions.{pre_validate_transaction, intrinsic_gas}
use martinez.Consensus.Rewards.{
  rank, homestead, spurious, byzantium, istanbul, london, FinalizationChange, reward,
}
use martinez.Store.Write.{Writer, Orders, write_to_db}
use martinez.Processor.Types.{
  PartialHeader, MessageWithSender, BlockBodyWithSenders, BlockExecutionSpec, tx_type, Receipt,
  Machine, SetOrder, Processor, try,
}

-- The constants of chain/protocol_param.rs.
abbrev pub r_self_destruct : ℕ
r_self_destruct = 24000

abbrev pub max_refund_quotient_frontier : ℕ
max_refund_quotient_frontier = 2

abbrev pub max_refund_quotient_london : ℕ
max_refund_quotient_london = 5

-- `expect`: an error makes the thread panic.
abbrev pub expect {ℓ} : {A : Type ℓ} → Verdict A → Verdict A
expect (accept a) = accept a
expect (reject e) = reject (fault panic)

-- The loops over the access list.
unfoldable pub access_slots : Address → List ℕ → IntraBlockState → IntraBlockState
access_slots address [] s = s
access_slots address (key ∷ rest) s = access_slots address rest (access_storage address key s).1

unfoldable pub access_entries : List AccessListItem → IntraBlockState → IntraBlockState
access_entries [] s = s
access_entries (item ∷ rest) s =
    access_entries rest (access_slots item.address item.slots (access_account item.address s).1)

-- The last receipt's total, or 0.
unfoldable pub last_gas : List Receipt → ℕ
last_gas [] = 0
last_gas (r ∷ []) = r.cumulative_gas_used
last_gas (r ∷ q ∷ rest) = last_gas (q ∷ rest)

-- The gas of each transaction, with its index: the fold in the report of a wrong total.
unfoldable pub gas_by_transaction : ℕ → ℕ → List Receipt → List (ℕ × ℕ)
gas_by_transaction i last [] = []
gas_by_transaction i last (r ∷ rest) =
    (i, (r.cumulative_gas_used + 2 ^ 64 - last) % 2 ^ 64)
    ∷ gas_by_transaction (i + 1) r.cumulative_gas_used rest

unfoldable pub fold_bloom : ℕ → List Receipt → ℕ
fold_bloom bloom [] = bloom
fold_bloom bloom (r ∷ rest) = fold_bloom (bit_or bloom r.bloom) rest

module _ (db : Db) (machine : Machine) (sets : SetOrder) (header : PartialHeader)
    (block_spec : BlockExecutionSpec) where
  unfoldable pub available_gas : Processor → ℕ
  available_gas p = (header.gas_limit + 2 ^ 64 - p.cumulative_gas_used) % 2 ^ 64

  unfoldable pub validate_transaction : MessageWithSender → Processor → Verdict Processor
  validate_transaction tx p = do
    expect (pre_validate_transaction tx.message block_spec.chain_id header.base_fee_per_gas)
    (code_hash, s₁) ← try (get_code_hash db tx.sender p.state)
    fail_if (not (code_hash == empty_hash)) (sender_no_eoa tx.sender)
    (expected_nonce, s₂) ← try (get_nonce db tx.sender s₁)
    fail_if (not (expected_nonce == (fields tx.message).nonce))
        (wrong_nonce tx.sender expected_nonce (fields tx.message).nonce)
    let v0 = (fields tx.message).gas_limit * max_fee_per_gas tx.message + (fields tx.message).value
    (available_balance, s₃) ← try (get_balance db tx.sender s₂)
    fail_if (ltb available_balance v0) (insufficient_funds tx.sender available_balance v0)
    fail_if (ltb (available_gas p) (fields tx.message).gas_limit)
        (block_gas_limit_exceeded (available_gas p) (fields tx.message).gas_limit)
    accept (record p { state = s₃ })

  abbrev pub max_refund_quotient : ℕ
  max_refund_quotient =
      if leb (rank london) (rank block_spec.revision)
      then max_refund_quotient_london
      else max_refund_quotient_frontier

  -- `refund` before it is bounded.
  abbrev pub earned_refund : IntraBlockState → ℕ
  earned_refund s =
      if ltb (rank block_spec.revision) (rank london)
      then (s.refund + r_self_destruct * sets.len s.self_destructs) % 2 ^ 64
      else s.refund

  -- `gas_left` with the refund.
  abbrev pub refunded : ℕ → ℕ → IntraBlockState → ℕ
  refunded gas_limit gas_left s =
      (gas_left
        + min (earned_refund s) ((gas_limit + 2 ^ 64 - gas_left) % 2 ^ 64 / max_refund_quotient))
      % 2 ^ 64

  unfoldable pub refund_gas :
      MessageWithSender → ℕ → IntraBlockState → Verdict (ℕ × IntraBlockState)
  refund_gas txn gas_left s = do
    let left = refunded (fields txn.message).gas_limit gas_left s
    price ← effective_gas_price txn.message (unwrap_or 0 header.base_fee_per_gas)
    s' ← try (add_to_balance db txn.sender (left * price % 2 ^ 256) s)
    accept (left, s')

  -- `if let TransactionAction::Call(to)`
  abbrev pub enter_call :
      TransactionAction → MessageWithSender → IntraBlockState → Verdict IntraBlockState
  enter_call create txn s = accept s
  enter_call (call to) txn s =
      try (
        set_nonce db txn.sender (((fields txn.message).nonce + 1) % 2 ^ 64) (access_account to s).1)

  abbrev pub destruct_dead : IntraBlockState → Verdict IntraBlockState
  destruct_dead s =
      if leb (rank spurious) (rank block_spec.revision)
      then try (destruct_touched_dead db (sets.iterate s.touched) s)
      else accept s

  unfoldable pub execute_transaction : MessageWithSender → Processor → Verdict (Receipt × Processor)
  execute_transaction txn p = do
    let gas_limit = (fields txn.message).gas_limit
    let base_fee_per_gas = unwrap_or 0 header.base_fee_per_gas
    let s₁ = (access_account txn.sender (clear_journal_and_substate p.state)).1
    effective_gas_price ← effective_gas_price txn.message base_fee_per_gas
    s₂ ← try (subtract_from_balance db txn.sender (gas_limit * effective_gas_price % 2 ^ 256) s₁)
    s₃ ← enter_call (fields txn.message).action txn s₂
    let s₄ = access_entries (access_list txn.message) s₃
    let g0 =
        intrinsic_gas txn.message (leb (rank homestead) (rank block_spec.revision))
          (leb (rank istanbul) (rank block_spec.revision))
    fail_if (ltb gas_limit g0) intrinsic_gas_error
    (vm_res, s₅) ← machine.execute header block_spec txn (gas_limit - g0) s₄
    (gas_left, s₆) ← refund_gas txn vm_res.gas_left s₅
    let gas_used = (gas_limit + 2 ^ 64 - gas_left) % 2 ^ 64
    priority_fee_per_gas ← priority_fee_per_gas txn.message base_fee_per_gas
    s₇ ← try (add_to_balance db header.beneficiary (gas_used * priority_fee_per_gas % 2 ^ 256) s₆)
    s₈ ← try (destruct_selfdestructs db (sets.iterate s₇.self_destructs) s₇)
    s₉ ← destruct_dead s₈
    let s = finalize_transaction s₉
    let cumulative_gas_used = (p.cumulative_gas_used + gas_used) % 2 ^ 64
    accept (
      record {
        tx_type = tx_type txn.message;
        success = vm_res.success;
        cumulative_gas_used = cumulative_gas_used;
        bloom = machine.logs_bloom s.logs;
        logs = s.logs;
      },
      record { state = s; cumulative_gas_used = cumulative_gas_used },
    )

  unfoldable pub balance_loop : List (Address × ℕ) → IntraBlockState → Verdict IntraBlockState
  balance_loop [] s = accept s
  balance_loop ((address, balance) ∷ rest) s = do
    s' ← try (set_balance db address balance s)
    balance_loop rest s'

  unfoldable pub transaction_loop :
      List MessageWithSender → Processor → Verdict (List Receipt × Processor)
  transaction_loop [] p = accept ([], p)
  transaction_loop (txn ∷ rest) p = do
    p₁ ← validate_transaction txn p
    (receipt, p₂) ← execute_transaction txn p₁
    (receipts, p₃) ← transaction_loop rest p₂
    accept (receipt ∷ receipts, p₃)

  unfoldable pub reward_loop : List FinalizationChange → IntraBlockState → Verdict IntraBlockState
  reward_loop [] s = accept s
  reward_loop (reward address amount ∷ rest) s = do
    s' ← try (add_to_balance db address amount s)
    reward_loop rest s'

  unfoldable pub execute_block_no_post_validation :
      BlockBodyWithSenders → Processor → Verdict (List Receipt × Processor)
  execute_block_no_post_validation block p = do
    s₁ ← balance_loop block_spec.balance_changes p.state
    (receipts, p₁) ← transaction_loop block.transactions (record p { state = s₁ })
    changes ← machine.finalize header block.ommers block_spec.revision
    s₂ ← reward_loop changes p₁.state
    accept (receipts, record p₁ { state = s₂ })

  -- The checks of the receipts against the header.
  unfoldable pub check_receipts : List Receipt → Verdict (Unit {0})
  check_receipts receipts = do
    fail_if (not (last_gas receipts == header.gas_used))
        (wrong_block_gas header.gas_used (last_gas receipts) (gas_by_transaction 0 0 receipts))
    fail_if
        (leb (rank byzantium) (rank block_spec.revision)
          && not (machine.root_hash receipts == header.receipts_root))
        (wrong_receipts_root (machine.root_hash receipts) header.receipts_root)
    fail_if (not (fold_bloom 0 receipts == header.logs_bloom))
        (wrong_logs_bloom (fold_bloom 0 receipts) header.logs_bloom)

  -- The maps of the state that is written are iterated in the orders that `orders` gives.
  unfoldable pub execute_and_write_block :
      {S : Type 0}
      → Writer S
      → (IntraBlockState → Orders)
      → BlockBodyWithSenders
      → Processor
      → S
      → Verdict (List Receipt × S)
  execute_and_write_block writer orders block p store = do
    (receipts, p₁) ← execute_block_no_post_validation block p
    check_receipts receipts
    store' ← try (write_to_db writer p₁.state (orders p₁.state) header.number store)
    accept (receipts, store')

-- `ExecutionProcessor::new`
abbrev pub new_processor : Processor
new_processor = record { state = new; cumulative_gas_used = 0 }
