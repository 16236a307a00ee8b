-- ===== src/Processor/Types.antt =====
-- execution/processor.rs: the processor's fields; models/header.rs, chainspec.rs, transaction.rs,
-- block.rs and receipt.rs: what it reads and makes.
use martinez.Base.{ℕ, Bool, Option, List, Set, Result, ok, err}
use martinez.State.Types.{Address, Bytes, Log, IntraBlockState}
use martinez.Consensus.Types.{
  BlockHeader, Message, legacy, eip2930, eip1559, Verdict, accept, reject, fault,
}
use martinez.Consensus.Rewards.{Revision, FinalizationChange}

pub record PartialHeader : Type 0 where
  pub parent_hash : ℕ
  pub beneficiary : Address
  pub state_root : ℕ
  pub receipts_root : ℕ
  pub logs_bloom : ℕ
  pub difficulty : ℕ
  pub number : ℕ
  pub gas_limit : ℕ
  pub gas_used : ℕ
  pub timestamp : ℕ
  pub extra_data : Bytes
  pub mix_hash : ℕ
  pub nonce : ℕ
  pub base_fee_per_gas : Option ℕ

pub record MessageWithSender : Type 0 where
  pub message : Message
  pub sender : Address

pub record BlockBodyWithSenders : Type 0 where
  pub transactions : List MessageWithSender
  pub ommers : List BlockHeader

-- What the processor reads of the specification: `params.chain_id`, and `balance_changes` in the
-- order in which the map is iterated.
pub record BlockExecutionSpec : Type 0 where
  pub revision : Revision
  pub chain_id : ℕ
  pub balance_changes : List (Address × ℕ)

pub data TxType : Type 0 where
  legacy_type eip2930_type eip1559_type : TxType

unfoldable pub tx_type : Message → TxType
tx_type (legacy id p f) = legacy_type
tx_type (eip2930 id p l f) = eip2930_type
tx_type (eip1559 id p m l f) = eip1559_type

pub record Receipt : Type 0 where
  pub tx_type : TxType
  pub success : Bool
  pub cumulative_gas_used : ℕ
  pub bloom : ℕ
  pub logs : List Log

-- `gas_left` is the number that `as u64` makes of it.
pub record CallResult : Type 0 where
  pub success : Bool
  pub gas_left : ℕ
  pub output_data : Bytes

-- What the processor calls: the virtual machine, the engine, and the hashes of receipts and logs. The
-- virtual machine gets the transaction, the gas and the state.
pub record Machine : Type 0 where
  pub execute :
      PartialHeader
      → BlockExecutionSpec
      → MessageWithSender
      → ℕ
      → IntraBlockState
      → Verdict (CallResult × IntraBlockState)
  pub finalize : PartialHeader → List BlockHeader → Revision → Verdict (List FinalizationChange)
  pub root_hash : List Receipt → ℕ
  pub logs_bloom : List Log → ℕ

-- The orders in which sets are iterated, and `len`.
pub record SetOrder : Type 0 where
  pub iterate : Set → List Address
  pub len : Set → ℕ

-- The fields that change; the others are arguments of the operations.
pub record Processor : Type 0 where
  pub state : IntraBlockState
  pub cumulative_gas_used : ℕ

-- An error of the database, passed on by `?`.
abbrev pub try {ℓ} : {A : Type ℓ} → Result A → Verdict A
try (ok a) = accept a
try (err e) = reject (fault e)
