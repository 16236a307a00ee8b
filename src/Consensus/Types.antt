-- ===== src/Consensus/Types.antt =====
-- models/header.rs, models/transaction.rs, models/chainspec.rs and the errors of consensus/mod.rs.
use martinez.Base.{ℕ, Bool, true, false, Option, some, List, [], leb, unwrap_or, Fault, ◌^◌, ◌-◌}
use native.Mathlib.Decide.{ℕ_discrete}

abbrev pub Bytes : Type 0
Bytes = List ℕ

pub record BlockHeader : Type 0 where
  pub parent_hash : ℕ
  pub ommers_hash : ℕ
  pub beneficiary : ℕ
  pub state_root : ℕ
  pub transactions_root : ℕ
  pub receipts_root : ℕ
  pub logs_bloom : ℕ
  pub difficulty : ℕ
  pub number : ℕ
  pub gas_limit : ℕ
  pub gas_used : ℕ
  pub timestamp : ℕ
  pub extra_data : Bytes
  pub mix_hash : ℕ
  pub nonce : ℕ
  pub base_fee_per_gas : Option ℕ

unfoldable pub header_discrete : Discrete BlockHeader
header_discrete = hlevel ℕ_discrete

-- An address, and the storage keys under it.
pub record AccessListItem : Type 0 where
  pub address : ℕ
  pub slots : List ℕ

pub data TransactionAction : Type 0 where
  call : ℕ → TransactionAction
  create : TransactionAction

pub record Fields : Type 0 where
  pub nonce : ℕ
  pub gas_limit : ℕ
  pub action : TransactionAction
  pub value : ℕ
  pub input : Bytes

-- The fields that the three kinds share stand in `Fields`.
pub data Message : Type 0 where
  legacy : (chain_id : Option ℕ) (gas_price : ℕ) → Fields → Message
  eip2930 : (chain_id gas_price : ℕ) → List AccessListItem → Fields → Message
  eip1559 :
      (chain_id max_priority_fee_per_gas max_fee_per_gas : ℕ)
      → List AccessListItem
      → Fields
      → Message

unfoldable pub chain_id : Message → Option ℕ
chain_id (legacy id p f) = id
chain_id (eip2930 id p l f) = some id
chain_id (eip1559 id p m l f) = some id

unfoldable pub max_priority_fee_per_gas : Message → ℕ
max_priority_fee_per_gas (legacy id p f) = p
max_priority_fee_per_gas (eip2930 id p l f) = p
max_priority_fee_per_gas (eip1559 id p m l f) = p

unfoldable pub max_fee_per_gas : Message → ℕ
max_fee_per_gas (legacy id p f) = p
max_fee_per_gas (eip2930 id p l f) = p
max_fee_per_gas (eip1559 id p m l f) = m

abbrev pub fields : Message → Fields
fields (legacy id p f) = f
fields (eip2930 id p l f) = f
fields (eip1559 id p m l f) = f

unfoldable pub access_list : Message → List AccessListItem
access_list (legacy id p f) = []
access_list (eip2930 id p l f) = l
access_list (eip1559 id p m l f) = l

pub data ValidationError : Type 0 where
  future_block : (now got : ℕ) → ValidationError
  wrong_state_root wrong_ommers_hash wrong_transactions_root : (expected got : ℕ) → ValidationError
  wrong_receipts_root wrong_logs_bloom : (expected got : ℕ) → ValidationError
  unknown_parent wrong_difficulty : ValidationError
  gas_above_limit : (used limit : ℕ) → ValidationError
  invalid_gas_limit : ValidationError
  invalid_timestamp : (parent current : ℕ) → ValidationError
  extra_data_too_long wrong_dao_extra_data : ValidationError
  wrong_base_fee : (expected got : Option ℕ) → ValidationError
  invalid_seal missing_sender : ValidationError
  sender_no_eoa : (sender : ℕ) → ValidationError
  wrong_nonce : (account expected got : ℕ) → ValidationError
  intrinsic_gas_error : ValidationError
  insufficient_funds : (account available required : ℕ) → ValidationError
  block_gas_limit_exceeded : (available required : ℕ) → ValidationError
  max_fee_less_than_base max_priority_fee_greater_than_max : ValidationError
  too_many_ommers invalid_ommer_header not_an_ommer duplicate_ommer : ValidationError
  wrong_block_gas : (expected got : ℕ) → List (ℕ × ℕ) → ValidationError
  invalid_signature wrong_chain_id unsupported_transaction_type : ValidationError

-- `anyhow::Error`: a validation error, or a fault of the database or of an `unwrap`.
pub data Failure : Type 0 where
  invalid : ValidationError → Failure
  fault : Fault → Failure

pub data Verdict {ℓ} (A : Type ℓ) : Type ℓ where
  accept : A → Verdict A
  reject : Failure → Verdict A

infixl 5 ◌>>=◌ ◌>>◌
abbrev pub ◌>>=◌ {ℓ κ} : {A : Type ℓ} {B : Type κ} → Verdict A → (A → Verdict B) → Verdict B
accept a >>= f = f a
reject e >>= f = reject e

abbrev pub ◌>>◌ {ℓ} : {B : Type ℓ} → Verdict (Unit {0}) → Verdict B → Verdict B
m >> k = m >>= λ _. k

-- `if bad { return Err(e) }`
abbrev pub fail_if : Bool → ValidationError → Verdict (Unit {0})
fail_if true e = reject (invalid e)
fail_if false e = accept tt

-- A switch that is not set is active from the last block number on.
unfoldable pub switch_is_active : Option ℕ → ℕ → Bool
switch_is_active switch block_number = leb (unwrap_or (2 ^ 64 - 1) switch) block_number

-- The reads of the `State` trait that validation makes, and the hashes of a body's parts.
pub record ChainState : Type 0 where
  pub read_header : ℕ → ℕ → Verdict (Option BlockHeader)
  pub read_ommers : ℕ → ℕ → Verdict (Option (List BlockHeader))
  pub hash_ommers : List BlockHeader → ℕ
  pub hash_transactions : List Message → ℕ
