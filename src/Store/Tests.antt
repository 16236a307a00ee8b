-- ===== src/Store/Tests.antt =====
-- Runs of the database in memory on concrete inputs, and the theorems at them.
use martinez.Base.{
  ℕ, none, some, [], ◌∷◌, ◌≡◌, refl, subst, ◌==◌, if◌then◌else◌, Map, no_key, insert, unwrap_or,
  Result, ok, err, arith,
}
use martinez.State.Types.{
  Address, Account, Storage, CommittedValue, IntraBlockState, default_account, new as empty_state,
}
use martinez.Consensus.Types.{BlockHeader}
use martinez.Store.Types.{InMemoryState, Block, new}
use martinez.Store.Updates.{
  begin_block, erase_storage, update_account, update_storage, read_account, read_storage,
  unwind_state_changes,
}
use martinez.Store.Write.{
  Orders, in_memory, erase_loop, slot_loop, storage_loop, object_loop, code_loop, write_to_db,
}
use martinez.Store.Loops.{written_account, written_slot, committed_of, is_erased}
use martinez.Store.Unwind.{IsFresh, HasInitials, unwind_state_changes-write_to_db}
use martinez.Store.Reads.{Covers, write_to_db-reads}
use martinez.Store.Blocks.{
  read_header, read_body, total_difficulty, insert_block, canonize_block, decanonize_block,
  canonical_hash, current_canonical_block,
}
use martinez.Store.Canonical.{canonical_hash_lem}
use martinez.Store.Chain.{insert_block_lem}

abbrev payer : Account
payer = record { nonce = 4; balance = 1000; code_hash = 77 }

abbrev paid : Account
paid = record { nonce = 5; balance = 900; code_hash = 77 }

-- Account 1 holds 5 in slot 7 and 6 in slot 8.
abbrev before : InMemoryState
before = record new {
  accounts = insert 1 payer no_key;
  storage = λ a. if a == 1 then insert 7 5 (insert 8 6 no_key) else no_key;
}

abbrev committed : Map CommittedValue
committed = insert 7 (record { initial = 5; original = 9 }) no_key

abbrev slots : Storage
slots = record { committed = committed; current = no_key }

-- Slot 7 was written, the storage of account 2 wiped, and account 3 created.
abbrev executed : IntraBlockState
executed = record empty_state {
  objects =
      insert 1 (record { initial = some payer; current = some paid })
        (insert 3 (record { initial = none; current = some default_account }) no_key);
  storage = insert 1 slots no_key;
  incarnations = insert 2 1 no_key;
}

abbrev orders : Orders
orders = record {
  incarnations = 2 ∷ [];
  storage = 1 ∷ [];
  committed = λ a. 7 ∷ [];
  objects = 3 ∷ 1 ∷ [];
  new_code = [];
}

before-IsFresh : IsFresh 12 before
before-IsFresh = record { accounts = λ a. refl; slots = λ a key. refl }

-- Storage that the block state has is that of account 1.
in_slots : (a : Address) (st : Storage) → executed.storage a ≡ some st → (a ≡ 1) × (st ≡ slots)
in_slots a st e = (ground (arith, e), ground (arith, e))

in_committed :
    (a key : ℕ) (st : Storage) (c : CommittedValue)
    → executed.storage a ≡ some st
    → st.committed key ≡ some c
    → (a ≡ 1) × (key ≡ 7) × (c.initial ≡ 5)
in_committed a key st c e f =
    let (one, here) = in_slots a st e in
    let g : committed key ≡ some c = subst (λ (x : Storage). x.committed key ≡ some c) here f in
    (one, ground (arith, g), ground (arith, g))

executed-HasInitials : HasInitials executed before
executed-HasInitials = record {
  accounts = λ a o e. ground (arith, e);
  slots = λ a key storage c e f.
      let (one, seven, five) = in_committed a key storage c e f in rw (five, one, seven) refl;
}

unwind_state_changes-write_to_db_example :
    (x : InMemoryState) × (write_to_db in_memory executed orders 12 before ≡ ok x)
    × ((a : Address) → read_account (unwind_state_changes 12 x) a ≡ read_account before a)
    × ((a : Address) (key : ℕ)
        → read_storage (unwind_state_changes 12 x) a key ≡ read_storage before a key)
unwind_state_changes-write_to_db_example =
    unwind_state_changes-write_to_db before executed orders 12 before-IsFresh executed-HasInitials

executed-Covers : Covers executed orders
executed-Covers = record {
  incarnations = λ a n e. ground (arith, e);
  storage = λ a st e. ground (arith, e);
  committed =
      λ a st key c e f. let (one, seven, five) = in_committed a key st c e f in rw seven refl;
  objects = λ a o e. ground (arith, e);
}

write_to_db-reads_example :
    (x : InMemoryState) × (write_to_db in_memory executed orders 12 before ≡ ok x)
    × ((a : Address)
        → read_account x a ≡ ok (written_account (executed.objects a) (before.accounts a)))
    × ((a : Address) (key : ℕ)
        → read_storage x a key
          ≡ ok (
              unwrap_or 0 (
                written_slot
                  (committed_of (executed.storage a) (executed.objects a) key)
                  (if is_erased (executed.incarnations a) then none else before.storage a key))))
write_to_db-reads_example = write_to_db-reads before executed orders 12 executed-Covers

-- A contract that is destroyed and created again in one block, with a new value in slot 7: the wipe
-- notes the old value for the block, the write that follows notes 0 in its place.
abbrev recreated : IntraBlockState
recreated = record empty_state {
  objects = insert 1 (record { initial = some payer; current = some paid }) no_key;
  storage =
      insert 1
        (record {
          committed = insert 7 (record { initial = 0; original = 9 }) no_key;
          current = no_key;
        })
        no_key;
  incarnations = insert 1 1 no_key;
}

abbrev its_orders : Orders
its_orders = record {
  incarnations = 1 ∷ [];
  storage = 1 ∷ [];
  committed = λ a. 7 ∷ [];
  objects = 1 ∷ [];
  new_code = [];
}

or_new : Result InMemoryState → InMemoryState
or_new (ok m) = m
or_new (err e) = new

old_value : read_storage before 1 7 ≡ ok 5
unfolding read_storage
old_value = refl

-- The unwinding gives 0 where the slot had 5.
lost_by_unwind :
    read_storage
      (unwind_state_changes 12 (or_new (write_to_db in_memory recreated its_orders 12 before)))
      1
      7
    ≡ ok 0
unfolding read_storage unwind_state_changes or_new write_to_db erase_loop storage_loop slot_loop
    object_loop code_loop begin_block erase_storage update_storage update_account
lost_by_unwind = refl

abbrev header : BlockHeader
header = record {
  parent_hash = 50;
  ommers_hash = 0;
  beneficiary = 7;
  state_root = 0;
  transactions_root = 0;
  receipts_root = 0;
  logs_bloom = 0;
  difficulty = 30;
  number = 2;
  gas_limit = 5000;
  gas_used = 0;
  timestamp = 0;
  extra_data = [];
  mix_hash = 0;
  nonce = 0;
  base_fee_per_gas = none;
}

abbrev child : Block
child = record { header = header; transactions = []; ommers = [] }

abbrev parent : Block
parent = record child { header = record header { number = 1; parent_hash = 40; difficulty = 20 } }

abbrev chain : InMemoryState
chain = insert_block parent 50 new

-- The total is the parent's, 20, and the block's own.
total : total_difficulty (insert_block child 60 chain) 2 60 ≡ ok (some 50)
unfolding total_difficulty insert_block
total = refl

-- A block whose parent was not inserted gives the parent a total of zero.
orphan : total_difficulty (insert_block child 60 new) 1 50 ≡ ok (some 0)
unfolding total_difficulty insert_block
orphan = refl

canonical : canonical_hash (canonize_block 2 60 new) 1 ≡ some 0
unfolding canonical_hash canonize_block
canonical = refl

shortened : current_canonical_block (decanonize_block 2 (canonize_block 2 60 new)) ≡ 1
unfolding current_canonical_block canonize_block decanonize_block
shortened = refl

insert_block_lem_example :
    (read_header (insert_block child 60 chain) 2 60 ≡ ok (some header))
    × (read_body (insert_block child 60 chain) 2 60
        ≡ ok (some (record { transactions = []; ommers = [] })))
    × (total_difficulty (insert_block child 60 chain) 2 60 ≡ ok (some 50))
unfolding insert_block
insert_block_lem_example = insert_block_lem chain child 60 2 60

canonical_hash_lem_example :
    (canonical_hash (canonize_block 2 60 new) 1 ≡ some 0)
    × (canonical_hash (decanonize_block 2 new) 1 ≡ none)
unfolding canonical_hash
canonical_hash_lem_example = canonical_hash_lem new 2 60 1
