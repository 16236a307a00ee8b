-- ===== src/Consensus/Accepted.antt =====
-- What a block or a header satisfies that the checks of Consensus.Blocks have accepted.
use martinez.Base.{
  ℕ, Bool, false, not, Option, none, some, List, [], ◌∷◌, ◌≡◌, refl, ap, ◌∙◌, ltb, ◌==◌, arith,
  length, ==_iff,
}
use martinez.Consensus.Types.{
  BlockHeader, Message, ChainState, Verdict, accept, reject, invalid, fault, ValidationError,
}
use martinez.Consensus.Headers.{
  validate_block_header, IsValidHeader, validate_block_header-IsValidHeader, fail_if_then,
  not-false, future_then,
}
use martinez.Consensus.Transactions.{
  pre_validate_transaction, IsPreValid, pre_validate_transaction-IsPreValid,
}
use martinez.Consensus.Ommers.{same_header, get_parent_header, is_kin, Kin, is_kin-Kin, bind_inv}
use martinez.Consensus.Blocks.{
  Block, Ethash, ok_or, context, same_pair, check_ommer, check_ommers, check_transactions,
  pre_validate_block,
}

-- An ommer that a block may have, given the block's parent.
pub record IsOmmer (engine : Ethash) (now : ℕ) (state : ChainState) (parent ommer : BlockHeader)
    : Type 0 where
  pub ommer_parent : BlockHeader
  pub known : get_parent_header state ommer ≡ accept (some ommer_parent)
  pub header : IsValidHeader engine.eip1559_block now ommer ommer_parent false
  pub kin : Kin state ommer 6 parent

abbrev AllOmmers : Ethash → ℕ → ChainState → BlockHeader → List BlockHeader → Type 0
AllOmmers engine now state parent [] = Unit
AllOmmers engine now state parent (ommer ∷ rest) =
    IsOmmer engine now state parent ommer × AllOmmers engine now state parent rest

abbrev AllPreValid : ℕ → Option ℕ → List Message → Type 0
AllPreValid chain_id base_fee [] = Unit
AllPreValid chain_id base_fee (txn ∷ rest) =
    IsPreValid txn chain_id base_fee × AllPreValid chain_id base_fee rest

-- At most two ommers, and not twice the same.
abbrev DifferentOmmers : List BlockHeader → Type 0
DifferentOmmers [] = Unit
DifferentOmmers (a ∷ []) = Unit
DifferentOmmers (a ∷ b ∷ []) = same_header a b ≡ false
DifferentOmmers (a ∷ b ∷ c ∷ rest) = ⊥

pub record IsAcceptable (engine : Ethash) (now : ℕ) (state : ChainState) (block : Block)
    : Type 0 where
  pub ommers_hash : block.header.ommers_hash ≡ state.hash_ommers block.ommers
  pub transactions_root :
      block.header.transactions_root ≡ state.hash_transactions block.transactions
  pub different : DifferentOmmers block.ommers
  pub parent : BlockHeader
  pub known : get_parent_header state block.header ≡ accept (some parent)
  pub ommers : AllOmmers engine now state parent block.ommers
  pub transactions : AllPreValid engine.chain_id block.header.base_fee_per_gas block.transactions

pub ok_or_inv :
    {A : Type 0} (e : ValidationError) (o : Option A) {a : A} → ok_or e o ≡ accept a → o ≡ some a
ok_or_inv e none h = cc
ok_or_inv e (some b) h = cc

context_inv :
    (e : ValidationError) (v : Verdict (Unit {0})) → context e v ≡ accept tt → v ≡ accept tt
context_inv e (accept u) h = refl
context_inv e (reject (invalid i)) h = cc
context_inv e (reject (fault f)) h = cc

different :
    (ommers : List BlockHeader)
    → ltb 2 (length ommers) ≡ false
    → same_pair ommers ≡ false
    → DifferentOmmers ommers
different [] h k = tt
different (a ∷ []) h k = tt
different (a ∷ b ∷ []) h k = k
different (a ∷ b ∷ c ∷ rest) h k = ground arith

module _ (engine : Ethash) (now : ℕ) (state : ChainState) where
  check_ommer-IsOmmer :
      (parent : BlockHeader) (hash : ℕ) (ommer : BlockHeader)
      → check_ommer engine now state parent hash ommer ≡ accept tt
      → IsOmmer engine now state parent ommer
  unfolding check_ommer
  check_ommer-IsOmmer parent hash ommer h =
      let (found, read, h₁) = bind_inv (get_parent_header state ommer) _ h in
      let (ommer_parent, there, h₂) = bind_inv (ok_or _ found) _ h₁ in
      let (valid, h₃) =
        future_then
          (context _ (validate_block_header engine.eip1559_block now ommer ommer_parent false)) _
          h₂ in
      let ((kin, old), searched, h₄) = bind_inv (is_kin state 6 ommer parent hash []) _ h₃ in
      let (is_kin_test, h₅) = fail_if_then (not kin) _ _ h₄ in
      record {
        ommer_parent = ommer_parent;
        known = read ∙ ap accept (ok_or_inv _ found there);
        header =
            (validate_block_header-IsValidHeader engine.eip1559_block now ommer ommer_parent
                false).0
              (context_inv _ _ valid);
        kin =
            is_kin-Kin state ommer 6 parent hash [] old
              (searched ∙ ap (λ (k : Bool). accept (k, old)) (not-false kin is_kin_test));
      }

  check_ommers-AllOmmers :
      (parent : BlockHeader) (hash : ℕ) (ommers : List BlockHeader)
      → check_ommers engine now state parent hash ommers ≡ accept tt
      → AllOmmers engine now state parent ommers
  unfolding check_ommers
  check_ommers-AllOmmers parent hash [] h = tt
  check_ommers-AllOmmers parent hash (ommer ∷ rest) h =
      let (one, h₁) = future_then (check_ommer engine now state parent hash ommer) _ h in
      (check_ommer-IsOmmer parent hash ommer one, check_ommers-AllOmmers parent hash rest h₁)

  check_transactions-AllPreValid :
      (base_fee : Option ℕ) (txns : List Message)
      → check_transactions engine now state base_fee txns ≡ accept tt
      → AllPreValid engine.chain_id base_fee txns
  unfolding check_transactions
  check_transactions-AllPreValid base_fee [] h = tt
  check_transactions-AllPreValid base_fee (txn ∷ rest) h =
      let (one, h₁) = future_then (pre_validate_transaction txn engine.chain_id base_fee) _ h in
      (
        (pre_validate_transaction-IsPreValid txn engine.chain_id base_fee).0 one,
        check_transactions-AllPreValid base_fee rest h₁,
      )

  -- A block that is accepted has the hashes of its ommers and its transactions in its header, at most
  -- two ommers and not the same one twice, and a known parent; each ommer has a known parent, a valid
  -- header, and a parent among the last six ancestors of the block's parent; and every transaction
  -- passes the checks before execution.
  pub pre_validate_block-IsAcceptable :
      (block : Block)
      → pre_validate_block engine now state block ≡ accept tt
      → IsAcceptable engine now state block
  unfolding pre_validate_block
  pre_validate_block-IsAcceptable block h =
      let (c₁, h₁) =
        fail_if_then (not (block.header.ommers_hash == state.hash_ommers block.ommers)) _ _ h in
      let (c₂, h₂) =
        fail_if_then
          (not (block.header.transactions_root == state.hash_transactions block.transactions)) _ _
          h₁ in
      let (c₃, h₃) = fail_if_then (ltb 2 (length block.ommers)) _ _ h₂ in
      let (c₄, h₄) = fail_if_then (same_pair block.ommers) _ _ h₃ in
      let (found, read, h₅) = bind_inv (get_parent_header state block.header) _ h₄ in
      let (parent, there, h₆) = bind_inv (ok_or _ found) _ h₅ in
      let (ommers, txns) =
        future_then (check_ommers engine now state parent block.header.parent_hash block.ommers) _
          h₆ in
      record {
        ommers_hash = (==_iff _ _).0 (not-false _ c₁);
        transactions_root = (==_iff _ _).0 (not-false _ c₂);
        different = different block.ommers c₃ c₄;
        parent = parent;
        known = read ∙ ap accept (ok_or_inv _ found there);
        ommers = check_ommers-AllOmmers parent block.header.parent_hash block.ommers ommers;
        transactions =
            check_transactions-AllPreValid block.header.base_fee_per_gas block.transactions txns;
      }
