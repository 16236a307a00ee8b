-- ===== src/Consensus/Blocks.antt =====
-- consensus/base.rs: `pre_validate_block`; consensus/ethash/mod.rs: `validate_block_header`.
use martinez.Base.{ℕ, Bool, false, not, ◌||◌, Option, none, some, List, [], ◌∷◌, ltb, ◌==◌, length}
use martinez.Consensus.Types.{
  BlockHeader, Message, ChainState, Verdict, accept, reject, invalid, fault, ◌>>=◌, ◌>>◌, fail_if,
  ValidationError, switch_is_active, unknown_parent, wrong_difficulty, wrong_ommers_hash,
  wrong_transactions_root, too_many_ommers, duplicate_ommer, invalid_ommer_header, not_an_ommer,
}
use martinez.Consensus.Headers.{validate_block_header}
use martinez.Consensus.Difficulty.{canonical_difficulty, get_delay_to}
use martinez.Consensus.Transactions.{pre_validate_transaction}
use martinez.Consensus.Ommers.{empty_list_hash, same_header, get_parent_header, is_kin}

pub record Block : Type 0 where
  pub header : BlockHeader
  pub transactions : List Message
  pub ommers : List BlockHeader

-- The fields of `ConsensusEngineBase` and `Ethash` that validation reads.
pub record Ethash : Type 0 where
  pub chain_id : ℕ
  pub eip1559_block : Option ℕ
  pub homestead_formula : Option ℕ
  pub byzantium_formula : Option ℕ
  pub difficulty_bomb : Option (List (ℕ × ℕ))

-- `.ok_or(ValidationError::…)?`
abbrev pub ok_or {ℓ} : {A : Type ℓ} → ValidationError → Option A → Verdict A
ok_or e none = reject (invalid e)
ok_or e (some a) = accept a

-- `.context(…)`: the error is replaced; a panic is not caught.
abbrev pub context : ValidationError → Verdict (Unit {0}) → Verdict (Unit {0})
context e (accept u) = accept u
context e (reject (invalid i)) = reject (invalid e)
context e (reject (fault f)) = reject (fault f)

abbrev pub same_pair : List BlockHeader → Bool
same_pair (a ∷ b ∷ []) = same_header a b
same_pair _ = false

abbrev pub contains : BlockHeader → List BlockHeader → Bool
contains h [] = false
contains h (o ∷ rest) = same_header o h || contains h rest

module _ (engine : Ethash) (now : ℕ) (state : ChainState) where
  unfoldable pub check_ommer : BlockHeader → ℕ → BlockHeader → Verdict (Unit {0})
  check_ommer parent parent_hash ommer = do
    ommer_parent ← get_parent_header state ommer
    ommer_parent ← ok_or unknown_parent ommer_parent
    context invalid_ommer_header
        (validate_block_header engine.eip1559_block now ommer ommer_parent false)
    (kin, old_ommers) ← is_kin state 6 ommer parent parent_hash []
    fail_if (not kin) not_an_ommer
    fail_if (contains ommer old_ommers) duplicate_ommer

  unfoldable pub check_ommers : BlockHeader → ℕ → List BlockHeader → Verdict (Unit {0})
  check_ommers parent parent_hash [] = accept tt
  check_ommers parent parent_hash (ommer ∷ rest) = do
    check_ommer parent parent_hash ommer
    check_ommers parent parent_hash rest

  unfoldable pub check_transactions : Option ℕ → List Message → Verdict (Unit {0})
  check_transactions base_fee [] = accept tt
  check_transactions base_fee (txn ∷ rest) = do
    pre_validate_transaction txn engine.chain_id base_fee
    check_transactions base_fee rest

  unfoldable pub pre_validate_block : Block → Verdict (Unit {0})
  pre_validate_block block = do
    fail_if (not (block.header.ommers_hash == state.hash_ommers block.ommers))
        (wrong_ommers_hash (state.hash_ommers block.ommers) block.header.ommers_hash)
    fail_if (not (block.header.transactions_root == state.hash_transactions block.transactions)) (
        wrong_transactions_root (state.hash_transactions block.transactions)
          block.header.transactions_root)
    fail_if (ltb 2 (length block.ommers)) too_many_ommers
    fail_if (same_pair block.ommers) duplicate_ommer
    parent ← get_parent_header state block.header
    parent ← ok_or unknown_parent parent
    check_ommers parent block.header.parent_hash block.ommers
    check_transactions block.header.base_fee_per_gas block.transactions

  -- `Ethash::validate_block_header`
  unfoldable pub validate : BlockHeader → Bool → Verdict (Unit {0})
  validate header with_future_timestamp_check = do
    parent ← get_parent_header state header
    parent ← ok_or unknown_parent parent
    validate_block_header engine.eip1559_block now header parent with_future_timestamp_check
    let difficulty =
        canonical_difficulty header.number header.timestamp parent.difficulty parent.timestamp
          (not (parent.ommers_hash == empty_list_hash))
          (switch_is_active engine.byzantium_formula header.number)
          (switch_is_active engine.homestead_formula header.number)
          (elim engine.difficulty_bomb [
            | none ↦ none
            | some delays ↦ some (get_delay_to delays header.number)
          ])
    fail_if (not (difficulty == header.difficulty)) wrong_difficulty
