-- ===== src/State/Types.antt =====
-- models/account.rs, state/object.rs, state/delta.rs, state/interface.rs and the record of
-- state/intra_block_state.rs. Addresses, hashes and storage keys are the numbers of their bytes.
use martinez.Base.{ℕ, Option, List, [], Map, Set, no_key, no_element, Result}

abbrev pub Address : Type 0
Address = ℕ

abbrev pub Bytes : Type 0
Bytes = List ℕ

-- The hash of the empty string, EMPTY_HASH.
abbrev pub empty_hash : ℕ
empty_hash = 0xc5d2460186f7233c927e7db2dcc703c0e500b653ca82273b7bfad8045d85a470

pub record Account : Type 0 where
  pub nonce : ℕ
  pub balance : ℕ
  pub code_hash : ℕ

abbrev pub default_account : Account
default_account = record { nonce = 0; balance = 0; code_hash = empty_hash }

pub record Object : Type 0 where
  pub initial : Option Account
  pub current : Option Account

-- The value at the beginning of the block, and of the transaction.
pub record CommittedValue : Type 0 where
  pub initial : ℕ
  pub original : ℕ

pub record Storage : Type 0 where
  pub committed : Map CommittedValue
  pub current : Map ℕ

abbrev pub default_storage : Storage
default_storage = record { committed = no_key; current = no_key }

pub record Log : Type 0 where
  pub address : Address
  pub topics : List ℕ
  pub body : Bytes

pub data Delta : Type 0 where
  create : Address → Delta
  update_object : Address → Object → Delta
  update_balance : Address → ℕ → Delta
  incarnation : Address → Delta
  selfdestruct : Address → Delta
  touch_delta : Address → Delta
  storage_change : Address → ℕ → ℕ → Delta
  storage_wipe : Address → Storage → Delta
  storage_create : Address → Delta
  storage_access : Address → ℕ → Delta
  account_access : Address → Delta

-- The reads of the `State` trait that the block state makes, and the hash of the code.
pub record Db : Type 0 where
  pub read_account : Address → Result (Option Account)
  pub read_code : ℕ → Result Bytes
  pub read_storage : Address → ℕ → Result ℕ
  pub keccak256 : Bytes → ℕ

-- The journal has its newest entry first, the logs have their oldest first.
pub record IntraBlockState : Type 0 where
  pub objects : Map Object
  pub storage : Map Storage
  pub incarnations : Map ℕ
  pub existing_code : Map Bytes
  pub new_code : Map Bytes
  pub journal : List Delta
  pub self_destructs : Set
  pub logs : List Log
  pub touched : Set
  pub refund : ℕ
  pub accessed_addresses : Set
  pub accessed_storage_keys : Map Set

abbrev pub new : IntraBlockState
new = record {
  objects = no_key;
  storage = no_key;
  incarnations = no_key;
  existing_code = no_key;
  new_code = no_key;
  journal = [];
  self_destructs = no_element;
  logs = [];
  touched = no_element;
  refund = 0;
  accessed_addresses = no_element;
  accessed_storage_keys = no_key;
}

pub record Snapshot : Type 0 where
  pub journal_size : ℕ
  pub log_size : ℕ
  pub refund : ℕ
