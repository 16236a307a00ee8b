-- ===== src/Processor/Tests.antt =====
-- The execution of a block with one transaction, and the theorems at it.
use martinez.Base.{
  ℕ, ◌+◌, ◌-◌, ◌*◌, ◌/◌, ◌%◌, ◌^◌, ◌≤◌, ◌≡◌, refl, ap, ◌↔◌, true, Option, none, some, List, [], ◌∷◌,
  if◌then◌else◌, leb, Set, no_key, insert, arith,
}
use martinez.State.Types.{Address, Account, Db, IntraBlockState, empty_hash, new as empty_state}
use martinez.State.Objects.{get_object, ensure_object, get_or_create_object}
use martinez.State.Accounts.{
  exists, is_dead, get_code_hash, get_nonce, get_balance, touch, change_balance, change_account,
  set_balance, set_nonce, add_to_balance, subtract_from_balance, destruct, destruct_selfdestructs,
  destruct_touched_dead,
}
use martinez.State.Access.{access_account, access_storage}
use martinez.State.Slots.{clear_journal_and_substate, finalize_transaction}
use martinez.Consensus.Types.{
  legacy, call, access_list, max_fee_per_gas, max_priority_fee_per_gas, chain_id, Verdict, accept,
  reject, invalid, wrong_block_gas, wrong_nonce, ◌>>=◌,
}
use martinez.Consensus.Fees.{priority_fee_per_gas, effective_gas_price}
use martinez.Consensus.Transactions.{
  pre_validate_transaction, intrinsic_gas, count_non_zero, slots_gas,
}
use martinez.Consensus.Rewards.{
  byzantium, rank, finalize, ommer_loop, ommer_reward, block_reward, london,
}
use martinez.Store.Types.{InMemoryState, new}
use martinez.Store.Updates.{
  read_account, read_code, read_storage, begin_block, erase_storage, update_account, update_code,
  update_storage, db_of,
}
use martinez.Store.Write.{
  Orders, in_memory, erase_loop, slot_loop, storage_loop, object_loop, code_loop, write_to_db,
}
use martinez.Processor.Types.{
  PartialHeader, MessageWithSender, BlockBodyWithSenders, BlockExecutionSpec, tx_type, Receipt,
  CallResult, Machine, SetOrder, Processor, try,
}
use martinez.Processor.Execute.{
  available_gas, validate_transaction, refund_gas, earned_refund, access_slots, access_entries,
  execute_transaction, balance_loop, transaction_loop, reward_loop,
  execute_block_no_post_validation, last_gas, gas_by_transaction, fold_bloom, check_receipts,
  execute_and_write_block, new_processor,
}
use martinez.Processor.Checks.{IsExecutable, validate_transaction-IsExecutable, accept-injective}
use martinez.Processor.Gas.{IsFrugal, refund_gas_bounds}
use martinez.Processor.Blocks.{reported}
use martinez.Processor.Accepted.{
  IsExecuted, execute_and_write_block-IsExecuted, execute_and_write_block-wrong_block_gas,
}

abbrev payer : Account
payer = record { nonce = 4; balance = 10 ^ 18; code_hash = empty_hash }

abbrev before : InMemoryState
before = record new { accounts = insert 1 payer no_key }

abbrev db : Db
db = db_of (λ code. 99) before

-- Half of the gas is used, and the state is kept.
abbrev half : Machine
half = record {
  execute = λ header block_spec txn gas s.
      accept (record { success = true; gas_left = gas / 2; output_data = [] }, s);
  finalize =
      λ header ommers revision. accept (finalize header.number header.beneficiary ommers revision);
  root_hash = λ receipts. 5;
  logs_bloom = λ logs. 0;
}

half-IsFrugal : IsFrugal half
half-IsFrugal header block_spec txn gas s s' res h =
    let left : gas / 2 ≡ res.gas_left =
      ap (λ (q : CallResult × IntraBlockState). q.0.gas_left) (accept-injective h) in
    omega (arith, left)

-- The accounts of the test.
abbrev chosen : Set → List Address → List Address
chosen s [] = []
chosen s (a ∷ rest) = let later = chosen s rest in if s a then a ∷ later else later

abbrev size : List Address → ℕ
size [] = 0
size (a ∷ rest) = 1 + size rest

abbrev sets : SetOrder
sets = record {
  iterate = λ s. chosen s (1 ∷ 2 ∷ 7 ∷ []);
  len = λ s. size (chosen s (1 ∷ 2 ∷ 7 ∷ []));
}

abbrev orders : IntraBlockState → Orders
orders s = record {
  incarnations = 1 ∷ 2 ∷ 7 ∷ [];
  storage = 1 ∷ 2 ∷ 7 ∷ [];
  committed = λ a. [];
  objects = 1 ∷ 2 ∷ 7 ∷ [];
  new_code = [];
}

abbrev header : PartialHeader
header = record {
  parent_hash = 0;
  beneficiary = 7;
  state_root = 0;
  receipts_root = 5;
  logs_bloom = 0;
  difficulty = 0;
  number = 12;
  gas_limit = 100000;
  gas_used = 25500;
  timestamp = 0;
  extra_data = [];
  mix_hash = 0;
  nonce = 0;
  base_fee_per_gas = none;
}

abbrev spec : BlockExecutionSpec
spec = record { revision = byzantium; chain_id = 1; balance_changes = [] }

abbrev txn : MessageWithSender
txn = record {
  message =
      legacy (some 1) 2
        (record { nonce = 4; gas_limit = 30000; action = call 2; value = 10; input = [] });
  sender = 1;
}

abbrev block : BlockBodyWithSenders
block = record { transactions = txn ∷ []; ommers = [] }

or_none : {S : Type 0} → Verdict (List Receipt × S) → S → List Receipt × S
or_none (accept result) s = result
or_none (reject e) s = ([], s)

abbrev executed : List Receipt × InMemoryState
executed =
    or_none
      (execute_and_write_block db half sets header spec in_memory orders block new_processor before)
      before

abbrev balance_of : Option Account → ℕ
balance_of none = 0
balance_of (some a) = a.balance

gas_used : last_gas executed.0 ≡ 25500
unfolding last_gas or_none execute_and_write_block execute_block_no_post_validation balance_loop
    transaction_loop validate_transaction pre_validate_transaction chain_id max_fee_per_gas
    max_priority_fee_per_gas get_code_hash get_object read_account get_nonce get_balance
    available_gas execute_transaction effective_gas_price priority_fee_per_gas rank count_non_zero
    intrinsic_gas slots_gas access_list access_entries access_slots check_receipts fold_bloom
    gas_by_transaction refund_gas reward_loop tx_type access_account access_storage add_to_balance
    change_balance change_account destruct destruct_selfdestructs destruct_touched_dead is_dead
    set_balance set_nonce subtract_from_balance touch ensure_object get_or_create_object
    clear_journal_and_substate finalize_transaction code_loop erase_loop object_loop slot_loop
    storage_loop write_to_db finalize ommer_loop ommer_reward block_reward read_code read_storage
    begin_block erase_storage update_account update_code update_storage exists
gas_used = refl

-- The miner has a tip of 2 for each unit of gas, and the reward.
miner : balance_of (executed.1.accounts 7) ≡ 25500 * 2 + 3 * 10 ^ 18
unfolding last_gas or_none execute_and_write_block execute_block_no_post_validation balance_loop
    transaction_loop validate_transaction pre_validate_transaction chain_id max_fee_per_gas
    max_priority_fee_per_gas get_code_hash get_object read_account get_nonce get_balance
    available_gas execute_transaction effective_gas_price priority_fee_per_gas rank count_non_zero
    intrinsic_gas slots_gas access_list access_entries access_slots check_receipts fold_bloom
    gas_by_transaction refund_gas reward_loop tx_type access_account access_storage add_to_balance
    change_balance change_account destruct destruct_selfdestructs destruct_touched_dead is_dead
    set_balance set_nonce subtract_from_balance touch ensure_object get_or_create_object
    clear_journal_and_substate finalize_transaction code_loop erase_loop object_loop slot_loop
    storage_loop write_to_db finalize ommer_loop ommer_reward block_reward read_code read_storage
    begin_block erase_storage update_account update_code update_storage exists
miner = refl

execute_and_write_block-IsExecuted_example :
    IsExecuted db half sets header spec in_memory orders block before executed.0 executed.1
unfolding last_gas or_none execute_and_write_block execute_block_no_post_validation balance_loop
    transaction_loop validate_transaction pre_validate_transaction chain_id max_fee_per_gas
    max_priority_fee_per_gas get_code_hash get_object read_account get_nonce get_balance
    available_gas execute_transaction effective_gas_price priority_fee_per_gas rank count_non_zero
    intrinsic_gas slots_gas access_list access_entries access_slots check_receipts fold_bloom
    gas_by_transaction refund_gas reward_loop tx_type access_account access_storage add_to_balance
    change_balance change_account destruct destruct_selfdestructs destruct_touched_dead is_dead
    set_balance set_nonce subtract_from_balance touch ensure_object get_or_create_object
    clear_journal_and_substate finalize_transaction code_loop erase_loop object_loop slot_loop
    storage_loop write_to_db finalize ommer_loop ommer_reward block_reward read_code read_storage
    begin_block erase_storage update_account update_code update_storage exists
execute_and_write_block-IsExecuted_example =
    execute_and_write_block-IsExecuted db half sets header spec in_memory orders block before
      executed.1 executed.0 half-IsFrugal (omega arith) refl

-- The same block under a header with another total.
abbrev other_header : PartialHeader
other_header = record header { gas_used = 30000 }

abbrev or_empty : Verdict (List Receipt × Processor) → List Receipt × Processor
or_empty (accept result) = result
or_empty (reject e) = ([], new_processor)

abbrev ran : List Receipt × Processor
ran = or_empty (execute_block_no_post_validation db half sets other_header spec block new_processor)

last_is : last_gas ran.0 ≡ 25500
unfolding last_gas or_none execute_and_write_block execute_block_no_post_validation balance_loop
    transaction_loop validate_transaction pre_validate_transaction chain_id max_fee_per_gas
    max_priority_fee_per_gas get_code_hash get_object read_account get_nonce get_balance
    available_gas execute_transaction effective_gas_price priority_fee_per_gas rank count_non_zero
    intrinsic_gas slots_gas access_list access_entries access_slots check_receipts fold_bloom
    gas_by_transaction refund_gas reward_loop tx_type access_account access_storage add_to_balance
    change_balance change_account destruct destruct_selfdestructs destruct_touched_dead is_dead
    set_balance set_nonce subtract_from_balance touch ensure_object get_or_create_object
    clear_journal_and_substate finalize_transaction code_loop erase_loop object_loop slot_loop
    storage_loop write_to_db finalize ommer_loop ommer_reward block_reward read_code read_storage
    begin_block erase_storage update_account update_code update_storage exists
last_is = refl

execute_and_write_block-wrong_block_gas_example :
    (execute_and_write_block db half sets other_header spec in_memory orders block new_processor
        before
      ≡ reject (invalid (wrong_block_gas 30000 (last_gas ran.0) (gas_by_transaction 0 0 ran.0))))
    × (reported (gas_by_transaction 0 0 ran.0) ≡ last_gas ran.0)
unfolding last_gas or_none execute_and_write_block execute_block_no_post_validation balance_loop
    transaction_loop validate_transaction pre_validate_transaction chain_id max_fee_per_gas
    max_priority_fee_per_gas get_code_hash get_object read_account get_nonce get_balance
    available_gas execute_transaction effective_gas_price priority_fee_per_gas rank count_non_zero
    intrinsic_gas slots_gas access_list access_entries access_slots check_receipts fold_bloom
    gas_by_transaction refund_gas reward_loop tx_type access_account access_storage add_to_balance
    change_balance change_account destruct destruct_selfdestructs destruct_touched_dead is_dead
    set_balance set_nonce subtract_from_balance touch ensure_object get_or_create_object
    clear_journal_and_substate finalize_transaction code_loop erase_loop object_loop slot_loop
    storage_loop write_to_db finalize ommer_loop ommer_reward block_reward read_code read_storage
    begin_block erase_storage update_account update_code update_storage exists
execute_and_write_block-wrong_block_gas_example =
    execute_and_write_block-wrong_block_gas db half sets other_header spec in_memory orders block
      before ran.0 ran.1 half-IsFrugal (omega arith) refl (omega (arith, last_is))

abbrev funded : Processor
funded = record { state = empty_state; cumulative_gas_used = 70000 }

abbrev or_new : Verdict Processor → Processor
or_new (accept p) = p
or_new (reject e) = new_processor

abbrev checked : Processor
checked = or_new (validate_transaction db half sets header spec txn funded)

-- The gas limit, 30000, is just what is left in the block.
validate_transaction-IsExecutable_example :
    (validate_transaction db half sets header spec txn funded ≡ accept checked)
    ↔ IsExecutable db half sets header spec txn funded checked
validate_transaction-IsExecutable_example =
    validate_transaction-IsExecutable db half sets header spec txn funded checked (omega arith)
      (omega arith)

passes : validate_transaction db half sets header spec txn funded ≡ accept checked
unfolding last_gas or_none execute_and_write_block execute_block_no_post_validation balance_loop
    transaction_loop validate_transaction pre_validate_transaction chain_id max_fee_per_gas
    max_priority_fee_per_gas get_code_hash get_object read_account get_nonce get_balance
    available_gas execute_transaction effective_gas_price priority_fee_per_gas rank count_non_zero
    intrinsic_gas slots_gas access_list access_entries access_slots check_receipts fold_bloom
    gas_by_transaction refund_gas reward_loop tx_type access_account access_storage add_to_balance
    change_balance change_account destruct destruct_selfdestructs destruct_touched_dead is_dead
    set_balance set_nonce subtract_from_balance touch ensure_object get_or_create_object
    clear_journal_and_substate finalize_transaction code_loop erase_loop object_loop slot_loop
    storage_loop write_to_db finalize ommer_loop ommer_reward block_reward read_code read_storage
    begin_block erase_storage update_account update_code update_storage exists
passes = refl

-- A sender with another nonce.
wrong : MessageWithSender
wrong = record txn {
  message =
      legacy (some 1) 2
        (record { nonce = 3; gas_limit = 30000; action = call 2; value = 10; input = [] });
}

rejected :
    validate_transaction db half sets header spec wrong funded
    ≡ reject (invalid (wrong_nonce 1 4 3))
unfolding wrong last_gas or_none execute_and_write_block execute_block_no_post_validation
    balance_loop transaction_loop validate_transaction pre_validate_transaction chain_id
    max_fee_per_gas max_priority_fee_per_gas get_code_hash get_object read_account get_nonce
    get_balance available_gas execute_transaction effective_gas_price priority_fee_per_gas rank
    count_non_zero intrinsic_gas slots_gas access_list access_entries access_slots check_receipts
    fold_bloom gas_by_transaction refund_gas reward_loop tx_type access_account access_storage
    add_to_balance change_balance change_account destruct destruct_selfdestructs
    destruct_touched_dead is_dead set_balance set_nonce subtract_from_balance touch ensure_object
    get_or_create_object clear_journal_and_substate finalize_transaction code_loop erase_loop
    object_loop slot_loop storage_loop write_to_db finalize ommer_loop ommer_reward block_reward
    read_code read_storage begin_block erase_storage update_account update_code update_storage
    exists
rejected = refl

refund_gas_bounds_example :
    (back price : ℕ) × (refund_gas db half sets header spec txn 4500
        (record empty_state { refund = 20000 })
      ≡ (try (add_to_balance db 1 (back * price % 2 ^ 256) (record empty_state { refund = 20000 }))
          >>= λ s'. accept (back, s')))
    × (effective_gas_price txn.message 0 ≡ accept price)
    × (4500 ≤ back)
    × (back ≤ 30000)
    × (back ≤ 4500 + earned_refund db half sets header spec (record empty_state { refund = 20000 }))
    × (back ≤ 4500 + (30000 - 4500) / (if leb (rank london) (rank byzantium) then 5 else 2))
refund_gas_bounds_example =
    refund_gas_bounds db half sets header spec txn 4500 (record empty_state { refund = 20000 })
      (omega arith) (omega arith) (omega arith) (unfold max_fee_per_gas in omega arith)
