-- ===== src/Store/Updates.antt =====
-- state/in_memory_state.rs: the accounts, code and storage, and the changes of a block.
use martinez.Base.{
  ℕ, Option, none, some, [], ◌==◌, if◌then◌else◌, Map, no_key, update, insert, unwrap_or, Result,
  ok,
}
use martinez.State.Types.{Address, Account, Bytes, Db}
use martinez.Store.Types.{InMemoryState}

unfoldable pub read_account : InMemoryState → Address → Result (Option Account)
read_account m address = ok (m.accounts address)

unfoldable pub read_code : InMemoryState → ℕ → Result Bytes
read_code m code_hash = ok (unwrap_or [] (m.code code_hash))

unfoldable pub read_storage : InMemoryState → Address → ℕ → Result ℕ
read_storage m address location = ok (unwrap_or 0 (m.storage address location))

-- What the entries of a map put over those of another.
abbrev pub overlay {ℓ} : {V : Type ℓ} → Map V → Map V → Map V
overlay above below key = elim (above key) [ some v ↦ some v | none ↦ below key ]

-- The storage is removed, and its slots go into the block's changes.
unfoldable pub erase_storage : Address → InMemoryState → InMemoryState
erase_storage address m = record m {
  storage = update m.storage address no_key;
  storage_changes = update m.storage_changes m.block_number (
      update (m.storage_changes m.block_number) address
        (overlay (m.storage address) (m.storage_changes m.block_number address)));
}

unfoldable pub begin_block : ℕ → InMemoryState → InMemoryState
begin_block block_number m = record m { block_number = block_number }

unfoldable pub update_account :
    Address → Option Account → Option Account → InMemoryState → InMemoryState
update_account address initial current m = record m {
  account_changes =
      update m.account_changes m.block_number
        (insert address initial (m.account_changes m.block_number));
  accounts = update m.accounts address current;
}

unfoldable pub update_code : ℕ → Bytes → InMemoryState → InMemoryState
update_code code_hash code m = record m { code = insert code_hash code m.code }

-- `remove` for zero, else `insert`.
abbrev pub put_slot : ℕ → ℕ → Map ℕ → Map ℕ
put_slot location value slots = update slots location (if value == 0 then none else some value)

unfoldable pub update_storage : Address → ℕ → ℕ → ℕ → InMemoryState → InMemoryState
update_storage address location initial current m = record m {
  storage_changes = update m.storage_changes m.block_number (
      update (m.storage_changes m.block_number) address
        (insert location initial (m.storage_changes m.block_number address)));
  storage = update m.storage address (put_slot location current (m.storage address));
}

-- The loops over the removed changes, whose keys are distinct.
abbrev pub unwound_account : Option (Option Account) → Option Account → Option Account
unwound_account none account = account
unwound_account (some initial) account = initial

abbrev pub unwound_slot : Option ℕ → Option ℕ → Option ℕ
unwound_slot none slot = slot
unwound_slot (some value) slot = if value == 0 then none else some value

unfoldable pub unwind_state_changes : ℕ → InMemoryState → InMemoryState
unwind_state_changes block_number m = record m {
  accounts = λ a. unwound_account (m.account_changes block_number a) (m.accounts a);
  account_changes = update m.account_changes block_number no_key;
  storage = λ a key. unwound_slot (m.storage_changes block_number a key) (m.storage a key);
  storage_changes = update m.storage_changes block_number (λ a. no_key);
}

-- The database that a block state reads; the hash of code is another crate's.
abbrev pub db_of : (Bytes → ℕ) → InMemoryState → Db
db_of keccak256 m = record {
  read_account = read_account m;
  read_code = read_code m;
  read_storage = read_storage m;
  keccak256 = keccak256;
}
