-- ===== src/Processor/Checks.antt =====
-- What the checks of the processor accept.
use martinez.Base.{
  ℕ, ◌+◌, ◌*◌, ◌^◌, ◌<◌, ◌≤◌, ◌≡◌, refl, sym, ap, subst, ◌↔◌, Bool, true, false, not, ◌==◌, ==-self,
  ltb, Result, ok, err, arith,
}
use martinez.State.Types.{Db, IntraBlockState, empty_hash}
use martinez.State.Accounts.{get_code_hash, get_nonce, get_balance}
use martinez.Consensus.Types.{
  fields, max_fee_per_gas, Verdict, accept, reject, ◌>>=◌, ◌>>◌, fail_if, ValidationError,
}
use martinez.Consensus.Transactions.{
  pre_validate_transaction, IsPreValid, pre_validate_transaction-IsPreValid,
}
use martinez.Consensus.Ommers.{bind_inv}
use martinez.Processor.Types.{
  PartialHeader, MessageWithSender, BlockExecutionSpec, Machine, SetOrder, Processor, try,
}
use martinez.Processor.Execute.{expect, available_gas, validate_transaction}

-- What passes a check and then the rest.
pub fail_if-inv {ℓ} :
    {B : Type ℓ} (b : Bool) (e : ValidationError) (rest : Verdict B) {out : B}
    → (fail_if b e >> rest) ≡ accept out
    → (b ≡ false) × (rest ≡ accept out)
fail_if-inv true e rest h = cc
fail_if-inv false e rest h = (refl, h)

-- To prove something from a chain that succeeds: its first part has a value, and the rest succeeds.
pub bind_elim {ℓ κ} :
    {A : Type 0} {B : Type ℓ} {P : Type κ} (m : Verdict A) (f : A → Verdict B) {b : B}
    → (m >>= f) ≡ accept b
    → ((a : A) → m ≡ accept a → f a ≡ accept b → P)
    → P
bind_elim (accept a) f h k = k a refl h
bind_elim (reject e) f h k = absurd (cc)

pub try-inv {ℓ} : {A : Type ℓ} (r : Result A) {a : A} → try r ≡ accept a → r ≡ ok a
try-inv (ok b) h = cc
try-inv (err e) h = cc

pub expect-inv {ℓ} : {A : Type ℓ} (r : Verdict A) {a : A} → expect r ≡ accept a → r ≡ accept a
expect-inv (accept b) h = h
expect-inv (reject e) h = cc

pub accept-injective {ℓ} : {A : Type ℓ} {a b : A} → accept a ≡ accept b → a ≡ b
accept-injective h = cc

pub not_less : (a b : ℕ) → ltb a b ≡ false → b ≤ a
not_less a b h = ground arith

pub not_less-false : (a b : ℕ) → b ≤ a → ltb a b ≡ false
not_less-false a b h = ground arith

not_equal-false : (a b : ℕ) → not (a == b) ≡ false → a ≡ b
not_equal-false a b h = ground arith

same_processor :
    (p p' : Processor)
    → p'.cumulative_gas_used ≡ p.cumulative_gas_used
    → ◌≡◌ {A = Processor} (record p { state = p'.state }) p'
same_processor p p' e = λ i. record { state = p'.state; cumulative_gas_used = sym e i }

module _ (db : Db) (machine : Machine) (sets : SetOrder) (header : PartialHeader)
    (block_spec : BlockExecutionSpec) where
  -- The Yellow Paper's conditions on a transaction before its execution, and the reads made.
  pub record IsExecutable (tx : MessageWithSender) (p p' : Processor) : Type 0 where
    pub pre_valid : IsPreValid tx.message block_spec.chain_id header.base_fee_per_gas
    pub s₁ : IntraBlockState
    pub s₂ : IntraBlockState
    pub no_code : get_code_hash db tx.sender p.state ≡ ok (empty_hash, s₁)
    pub nonce : get_nonce db tx.sender s₁ ≡ ok ((fields tx.message).nonce, s₂)
    pub balance : ℕ
    pub owns : get_balance db tx.sender s₂ ≡ ok (balance, p'.state)
    pub funds :
        (fields tx.message).gas_limit * max_fee_per_gas tx.message + (fields tx.message).value
        ≤ balance
    pub gas : p.cumulative_gas_used + (fields tx.message).gas_limit ≤ header.gas_limit
    pub same_total : p'.cumulative_gas_used ≡ p.cumulative_gas_used

  room :
      (p : Processor) (gas : ℕ)
      → header.gas_limit < 2 ^ 64
      → p.cumulative_gas_used ≤ header.gas_limit
      → gas ≤ available_gas db machine sets header block_spec p
      → p.cumulative_gas_used + gas ≤ header.gas_limit
  unfolding available_gas
  room p gas fits below small = omega arith

  has_room :
      (p : Processor) (gas : ℕ)
      → header.gas_limit < 2 ^ 64
      → p.cumulative_gas_used ≤ header.gas_limit
      → p.cumulative_gas_used + gas ≤ header.gas_limit
      → gas ≤ available_gas db machine sets header block_spec p
  unfolding available_gas
  has_room p gas fits below small = omega arith

  -- If the gas used so far is at most the block's gas limit, a number of 64 bits, a transaction
  -- passes the checks before its execution exactly if its chain and its fees are in order, its
  -- sender has no code, its nonce is the sender's, the sender's balance covers the value and all
  -- gas at the maximal fee, and the gas used so far with its gas limit is at most the block's. Only
  -- what these reads cache changes in the state, and the total of the block does not.
  pub validate_transaction-IsExecutable :
      (tx : MessageWithSender) (p p' : Processor)
      → header.gas_limit < 2 ^ 64
      → p.cumulative_gas_used ≤ header.gas_limit
      → (validate_transaction db machine sets header block_spec tx p ≡ accept p')
        ↔ IsExecutable tx p p'
  unfolding validate_transaction
  validate_transaction-IsExecutable tx p p' fits below = (
    λ h.
        let (u, h₀, r₀) =
          bind_inv
            (expect
              (pre_validate_transaction tx.message block_spec.chain_id header.base_fee_per_gas))
            _ h in
        let ((hash, s₁), h₁, r₁) = bind_inv (try (get_code_hash db tx.sender p.state)) _ r₀ in
        let (c₁, q₁) = fail_if-inv (not (hash == empty_hash)) _ _ r₁ in
        let ((nonce, s₂), h₂, r₂) = bind_inv (try (get_nonce db tx.sender s₁)) _ q₁ in
        let (c₂, q₂) = fail_if-inv (not (nonce == (fields tx.message).nonce)) _ _ r₂ in
        let ((balance, s₃), h₃, r₃) = bind_inv (try (get_balance db tx.sender s₂)) _ q₂ in
        let (c₃, q₃) = fail_if-inv (ltb balance _) _ _ r₃ in
        let (c₄, q₄) =
          fail_if-inv (ltb (available_gas db machine sets header block_spec p) _) _ _ q₃ in
        let done = accept-injective q₄ in
        record {
          pre_valid =
              (pre_validate_transaction-IsPreValid tx.message block_spec.chain_id
                  header.base_fee_per_gas).0
                (expect-inv _ h₀);
          s₁ = s₁;
          s₂ = s₂;
          no_code =
              subst (λ c. get_code_hash db tx.sender p.state ≡ ok (c, s₁))
                (not_equal-false hash empty_hash c₁) (try-inv _ h₁);
          nonce =
              subst (λ c. get_nonce db tx.sender s₁ ≡ ok (c, s₂))
                (not_equal-false nonce (fields tx.message).nonce c₂) (try-inv _ h₂);
          balance = balance;
          owns =
              subst (λ (q : Processor). get_balance db tx.sender s₂ ≡ ok (balance, q.state)) done
                (try-inv _ h₃);
          funds = not_less balance _ c₃;
          gas =
              room p (fields tx.message).gas_limit fits below
                (not_less (available_gas db machine sets header block_spec p) _ c₄);
          same_total = ap (λ (q : Processor). q.cumulative_gas_used) (sym done);
        },
    λ v.
        let valid =
          (pre_validate_transaction-IsPreValid tx.message block_spec.chain_id
              header.base_fee_per_gas).1
            v.pre_valid in
        let code = v.no_code in
        let nonce = v.nonce in
        let owns = v.owns in
        let funds = not_less-false v.balance _ v.funds in
        let gas =
          not_less-false (available_gas db machine sets header block_spec p) _
            (has_room p (fields tx.message).gas_limit fits below v.gas) in
        let total = v.same_total in
        rw (valid, code, nonce, ==-self (fields tx.message).nonce, owns, funds, gas)
          (ap accept (same_processor p p' total)),
  )
