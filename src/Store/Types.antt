-- ===== src/Store/Types.antt =====
-- state/in_memory_state.rs: the record, and models/block.rs and models/transaction.rs: what it holds.
use martinez.Base.{ℕ, Bool, Option, List, [], Map, no_key}
use martinez.State.Types.{Address, Account, Bytes}
use martinez.Consensus.Types.{BlockHeader, Message}

pub record MessageSignature : Type 0 where
  pub odd_y_parity : Bool
  pub r : ℕ
  pub s : ℕ

pub record MessageWithSignature : Type 0 where
  pub message : Message
  pub signature : MessageSignature

pub record BlockBody : Type 0 where
  pub transactions : List MessageWithSignature
  pub ommers : List BlockHeader

pub record Block : Type 0 where
  pub header : BlockHeader
  pub transactions : List MessageWithSignature
  pub ommers : List BlockHeader

-- A missing inner map of `storage`, `account_changes` and `storage_changes` is an empty one to every
-- operation, so these are functions into maps. `headers`, `bodies` and `difficulty` are indexed by
-- the block number.
pub record InMemoryState : Type 0 where
  pub accounts : Map Account
  pub code : Map Bytes
  pub storage : Address → Map ℕ
  pub headers : List (Map BlockHeader)
  pub bodies : List (Map BlockBody)
  pub difficulty : List (Map ℕ)
  pub canonical_hashes : List ℕ
  pub account_changes : ℕ → Map (Option Account)
  pub storage_changes : ℕ → Address → Map ℕ
  pub block_number : ℕ

abbrev pub new : InMemoryState
new = record {
  accounts = no_key;
  code = no_key;
  storage = λ a. no_key;
  headers = [];
  bodies = [];
  difficulty = [];
  canonical_hashes = [];
  account_changes = λ n. no_key;
  storage_changes = λ n a. no_key;
  block_number = 0;
}
