-- ===== src/Consensus/Fees.antt =====
-- consensus/base.rs: the base fee of EIP-1559; chain/protocol_param.rs and models/transaction.rs: the
-- fees of a transaction.
use Prim.Native.Nat.{max, min}
use martinez.Base.{
  ℕ, ◌+◌, ◌-◌, ◌*◌, ◌/◌, ◌%◌, ◌^◌, ◌≤◌, ◌<◌, Option, none, some, ◌≡◌, ◌≢◌, refl, false, Bool-cases,
  inl, inr, ltb→lt, ltb, ◌==◌, if◌then◌else◌, arith, panic,
}
use martinez.Consensus.Types.{
  BlockHeader, Message, max_priority_fee_per_gas, max_fee_per_gas, Verdict, accept, reject, fault,
  ◌>>=◌,
}

abbrev pub initial_base_fee : ℕ
initial_base_fee = 1000000000

abbrev pub base_fee_max_change_denominator : ℕ
base_fee_max_change_denominator = 8

abbrev pub elasticity_multiplier : ℕ
elasticity_multiplier = 2

-- U256 division, which panics by zero.
abbrev pub div_u256 : ℕ → ℕ → Verdict ℕ
div_u256 a b = if b == 0 then reject (fault panic) else accept (a / b)

-- `parent_base_fee_per_gas * gas_used_delta / parent_gas_target / DENOMINATOR`
unfoldable pub base_fee_delta : ℕ → ℕ → ℕ → Verdict ℕ
base_fee_delta base_fee gas_used_delta gas_target = do
  q ← div_u256 (base_fee * gas_used_delta % 2 ^ 256) gas_target
  accept (q / base_fee_max_change_denominator)

-- The block after one with the given base fee, gas target and gas used.
unfoldable pub next_base_fee : ℕ → ℕ → ℕ → Verdict ℕ
next_base_fee base_fee gas_target gas_used =
    if gas_used == gas_target
    then accept base_fee
    else if ltb gas_target gas_used
    then (do
      delta ← base_fee_delta base_fee (gas_used - gas_target) gas_target
      accept ((base_fee + max 1 delta) % 2 ^ 256))
    else do
      delta ← base_fee_delta base_fee (gas_target - gas_used) gas_target
      accept (base_fee - delta)

abbrev pub unwrap_fee : Option ℕ → Verdict ℕ
unwrap_fee none = reject (fault panic)
unwrap_fee (some fee) = accept fee

abbrev pub fee_after_fork : BlockHeader → Verdict (Option ℕ)
fee_after_fork parent = do
  base_fee ← unwrap_fee parent.base_fee_per_gas
  next ← next_base_fee base_fee (parent.gas_limit / elasticity_multiplier) parent.gas_used
  accept (some next)

abbrev pub fee_from_fork : ℕ → BlockHeader → BlockHeader → Verdict (Option ℕ)
fee_from_fork fork_block header parent =
    if ltb header.number fork_block
    then accept none
    else if header.number == fork_block
    then accept (some initial_base_fee)
    else fee_after_fork parent

-- The argument is the engine's `eip1559_block`.
unfoldable pub expected_base_fee_per_gas : Option ℕ → BlockHeader → BlockHeader → Verdict (Option ℕ)
expected_base_fee_per_gas none header parent = accept none
expected_base_fee_per_gas (some fork_block) header parent = fee_from_fork fork_block header parent

-- `assert!` the fee covers the base fee, then the smaller of the tip and what the fee leaves.
unfoldable pub priority_fee_per_gas : Message → ℕ → Verdict ℕ
priority_fee_per_gas txn base_fee =
    if ltb (max_fee_per_gas txn) base_fee
    then reject (fault panic)
    else accept (min (max_priority_fee_per_gas txn) (max_fee_per_gas txn - base_fee))

unfoldable pub effective_gas_price : Message → ℕ → Verdict ℕ
effective_gas_price txn base_fee = do
  priority_fee ← priority_fee_per_gas txn base_fee
  accept ((priority_fee + base_fee) % 2 ^ 256)

-- A sender who covers the base fee pays at least the base fee and at most the fee that the
-- transaction allows, and the miner gets what is paid above the base fee.
pub effective_gas_price_bounds :
    (txn : Message) (base_fee : ℕ)
    → base_fee ≤ max_fee_per_gas txn
    → max_fee_per_gas txn < 2 ^ 256
    → (price tip : ℕ) × (effective_gas_price txn base_fee ≡ accept price)
      × (priority_fee_per_gas txn base_fee ≡ accept tip)
      × (price ≡ base_fee + tip)
      × (price ≤ max_fee_per_gas txn)
      × (tip ≤ max_priority_fee_per_gas txn)
unfolding effective_gas_price priority_fee_per_gas
effective_gas_price_bounds txn base_fee covers fits =
    let covered : ltb (max_fee_per_gas txn) base_fee ≡ false = ground arith in
    let tip = min (max_priority_fee_per_gas txn) (max_fee_per_gas txn - base_fee) in
    let sum : (tip + base_fee) % 2 ^ 256 ≡ base_fee + tip = omega arith in
    (base_fee + tip, tip, rw (covered, sum), rw covered, refl, omega arith, omega arith)

mul_le : (a d t : ℕ) → d ≤ t → a * d ≤ a * t
mul_le a d t h = grind arith

scaled_le : (a d t : ℕ) → d ≤ t → 0 < t → a * d / t ≤ a
scaled_le a d t h p = grind arith

le_mul : (a t : ℕ) → 0 < t → a ≤ a * t
le_mul a t h = grind arith

base_fee_delta_value :
    (fee d t : ℕ)
    → 0 < t
    → d ≤ t
    → fee * t < 2 ^ 255
    → (delta : ℕ) × (base_fee_delta fee d t ≡ accept delta) × (delta ≤ fee / 8)
unfolding base_fee_delta
base_fee_delta_value fee d t pos small fits =
    let test : (t == 0) ≡ false = ground arith in
    let product : fee * d % 2 ^ 256 ≡ fee * d = omega (arith, mul_le fee d t small) in
    (fee * d / t / 8, rw (test, product), omega (arith, scaled_le fee d t small pos))

-- Where the last block used at most twice its target and the product with the target stays below
-- 2^255, the base fee is computed without a panic; it moves by an eighth at most, but up by one at
-- least; it stays the same at the target, rises above it, and does not rise below it.
pub next_base_fee_bounds :
    (base_fee gas_target gas_used : ℕ)
    → 0 < gas_target
    → gas_used ≤ 2 * gas_target
    → base_fee * gas_target < 2 ^ 255
    → (fee : ℕ) × (next_base_fee base_fee gas_target gas_used ≡ accept fee)
      × (fee ≤ base_fee + max 1 (base_fee / 8))
      × (base_fee ≤ fee + base_fee / 8)
      × (gas_used ≡ gas_target → fee ≡ base_fee)
      × (gas_target < gas_used → base_fee < fee)
      × (gas_used < gas_target → fee ≤ base_fee)
unfolding next_base_fee
next_base_fee_bounds base_fee gas_target gas_used pos used fits =
    elim (Bool-cases (gas_used == gas_target)) [
      | inl same ↦
          let e : gas_used ≡ gas_target = ground arith in
          (
            base_fee,
            rw same,
            omega arith,
            omega arith,
            λ _. refl,
            λ h. absurd (omega arith),
            λ h. omega arith,
          )
      | inr other ↦
          let ne : gas_used ≢ gas_target = ground arith in
          elim (Bool-cases (ltb gas_target gas_used)) [
            | inl above ↦
                let lt = ltb→lt gas_target gas_used above in
                let (delta, e, le) =
                  base_fee_delta_value base_fee (gas_used - gas_target) gas_target pos (omega arith)
                    fits in
                let wrap : (base_fee + max 1 delta) % 2 ^ 256 ≡ base_fee + max 1 delta =
                  omega (arith, le_mul base_fee gas_target pos) in
                (
                  base_fee + max 1 delta,
                  rw (other, above, e, wrap),
                  omega arith,
                  omega arith,
                  λ h. absurd (ne h),
                  λ h. omega arith,
                  λ h. absurd (omega arith),
                )
            | inr below ↦
                let ge : gas_used ≤ gas_target = ground arith in
                let (delta, e, le) =
                  base_fee_delta_value base_fee (gas_target - gas_used) gas_target pos (omega arith)
                    fits in
                (
                  base_fee - delta,
                  rw (other, below, e),
                  omega arith,
                  omega arith,
                  λ h. absurd (ne h),
                  λ h. absurd (omega arith),
                  λ h. omega arith,
                )
          ]
    ]
