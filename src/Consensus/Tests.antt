-- ===== src/Consensus/Tests.antt =====
-- The checks of consensus on a small chain, and the theorems at it.
use martinez.Base.{
  ℕ, ◌+◌, ◌*◌, ◌≤◌, ◌<◌, ◌^◌, true, false, none, some, [], ◌∷◌, ◌++◌, map, ◌≡◌, refl, ◌==◌, ◌&&◌,
  ◌↔◌, if◌then◌else◌, length, arith, ◌/◌, ◌-◌, ap, Option,
}
use Prim.Native.Nat.{max}
use martinez.Consensus.Types.{
  BlockHeader, header_discrete, Message, eip1559, create, ChainState, Verdict, accept, reject,
  invalid, invalid_timestamp, switch_is_active, max_fee_per_gas, max_priority_fee_per_gas, chain_id,
  access_list,
}
use martinez.Consensus.Fees.{
  next_base_fee, expected_base_fee_per_gas, effective_gas_price, priority_fee_per_gas,
  effective_gas_price_bounds, next_base_fee_bounds,
}
use martinez.Consensus.Headers.{
  validate_block_header, IsValidHeader, validate_block_header-IsValidHeader,
}
use martinez.Consensus.Difficulty.{
  formula, explode, canonical_difficulty, stepped, formula_lem, get_delay_to,
}
use martinez.Consensus.Bomb.{bomb_size, canonical_difficulty_lem}
use martinez.Consensus.Rewards.{byzantium, finalize, reward, share, block_reward, finalize_lem}
use martinez.Consensus.Transactions.{
  pre_validate_transaction, IsPreValid, pre_validate_transaction-IsPreValid, intrinsic_gas,
  intrinsic_gas_lem, input_gas, list_gas,
}
use martinez.Consensus.Ommers.{same_header, get_parent_header, is_kin, Kin, is_kin-Kin}
use martinez.Consensus.Blocks.{
  Block, Ethash, check_ommer, check_ommers, check_transactions, pre_validate_block, validate,
}
use martinez.Consensus.Accepted.{IsAcceptable, pre_validate_block-IsAcceptable}
use martinez.Consensus.Mined.{IsMined, validate-IsMined}

abbrev header_of : (number parent_hash timestamp : ℕ) → BlockHeader
header_of number parent_hash timestamp = record {
  parent_hash = parent_hash;
  ommers_hash = 0;
  beneficiary = number + 7;
  state_root = 1;
  transactions_root = 0;
  receipts_root = 2;
  logs_bloom = 0;
  difficulty = 131072;
  number = number;
  gas_limit = 8000000;
  gas_used = 21000;
  timestamp = timestamp;
  extra_data = 77 ∷ [];
  mix_hash = 0;
  nonce = 5;
  base_fee_per_gas = none;
}

abbrev genesis : BlockHeader
genesis = header_of 0 99 1000

abbrev parent : BlockHeader
parent = header_of 1 100 1013

-- A sibling of the parent.
abbrev uncle : BlockHeader
uncle = header_of 1 100 1017

abbrev child : BlockHeader
child = record (header_of 2 101 1030) { ommers_hash = 1; transactions_root = 1 }

abbrev chain : ChainState
chain = record {
  read_header = λ number hash.
      if number == 0 && hash == 100
      then accept (some genesis)
      else if number == 1 && hash == 101
      then accept (some parent)
      else accept none;
  read_ommers = λ number hash. accept (some []);
  hash_ommers = length;
  hash_transactions = length;
}

abbrev payment : Message
payment =
    eip1559 1 2 100 (record { address = 5; slots = 1 ∷ 2 ∷ [] } ∷ [])
      (record { nonce = 0; gas_limit = 50000; action = create; value = 3; input = 0 ∷ 9 ∷ [] })

abbrev block : Block
block = record { header = child; transactions = payment ∷ []; ommers = uncle ∷ [] }

abbrev mainnet : Ethash
mainnet = record {
  chain_id = 1;
  eip1559_block = some 50;
  homestead_formula = some 1;
  byzantium_formula = some 3;
  difficulty_bomb = some ((0, 0) ∷ []);
}

header_accepted : validate_block_header (some 50) 1020 parent genesis true ≡ accept tt
unfolding validate_block_header expected_base_fee_per_gas
header_accepted = refl

validate_block_header-IsValidHeader_example :
    (validate_block_header (some 50) 1020 parent genesis true ≡ accept tt)
    ↔ IsValidHeader (some 50) 1020 parent genesis true
validate_block_header-IsValidHeader_example =
    validate_block_header-IsValidHeader (some 50) 1020 parent genesis true

kin_found : is_kin chain 6 uncle parent 101 [] ≡ accept (true, [])
unfolding is_kin same_header header_discrete get_parent_header native.Mathlib.Decide.ℕ_discrete
kin_found = refl

is_kin-Kin_example : Kin chain uncle 6 parent
is_kin-Kin_example = is_kin-Kin chain uncle 6 parent 101 [] [] kin_found

block_accepted : pre_validate_block mainnet 1020 chain block ≡ accept tt
unfolding pre_validate_block check_ommers check_ommer check_transactions is_kin same_header
    header_discrete get_parent_header validate_block_header expected_base_fee_per_gas
    pre_validate_transaction chain_id max_fee_per_gas max_priority_fee_per_gas
    native.Mathlib.Decide.ℕ_discrete
block_accepted = refl

pre_validate_block-IsAcceptable_example : IsAcceptable mainnet 1020 chain block
pre_validate_block-IsAcceptable_example =
    pre_validate_block-IsAcceptable mainnet 1020 chain block block_accepted

abbrev target : ℕ
target = 4000000

abbrev full : ℕ
full = 8000000

-- A full block after one at a base fee of 7.
next_base_fee_bounds_example :
    (fee : ℕ) × (next_base_fee 7 target full ≡ accept fee)
    × (fee ≤ 7 + max 1 (7 / 8))
    × (7 ≤ fee + 7 / 8)
    × (full ≡ target → fee ≡ 7)
    × (target < full → 7 < fee)
    × (full < target → fee ≤ 7)
next_base_fee_bounds_example =
    next_base_fee_bounds 7 target full (omega arith) (omega arith) (omega arith)

fee_covered : 90 ≤ max_fee_per_gas payment
unfolding max_fee_per_gas
fee_covered = omega arith

fee_fits : max_fee_per_gas payment < 2 ^ 256
unfolding max_fee_per_gas
fee_fits = omega arith

effective_gas_price_bounds_example :
    (price tip : ℕ) × (effective_gas_price payment 90 ≡ accept price)
    × (priority_fee_per_gas payment 90 ≡ accept tip)
    × (price ≡ 90 + tip)
    × (price ≤ max_fee_per_gas payment)
    × (tip ≤ max_priority_fee_per_gas payment)
effective_gas_price_bounds_example = effective_gas_price_bounds payment 90 fee_covered fee_fits

formula_lem_example : formula (25 + 1000) 500000 1000 true true true ≡ stepped 500000 244 2 2
formula_lem_example = formula_lem 25 500000 1000 true true true (omega arith) (omega arith)

abbrev late : ℕ
late = 500009

formula_small : formula 1020 131072 1000 false true true < 2 ^ 255
unfolding formula
formula_small = omega arith

-- Five periods after the delay: the bomb is 8.
canonical_difficulty_lem_example :
    (canonical_difficulty late 1020 131072 1000 false true true (some 3)
      ≡ max (formula 1020 131072 1000 false true true + bomb_size ((late - 3) / 100000)) 131072)
    × (canonical_difficulty late 1020 131072 1000 false true true none
        ≡ max (formula 1020 131072 1000 false true true) 131072)
canonical_difficulty_lem_example =
    canonical_difficulty_lem late 1020 131072 1000 3 false true true (omega arith) formula_small

finalize_lem_example :
    finalize 2 9 (uncle ∷ []) byzantium
    ≡ map (share 2 (block_reward byzantium)) (uncle ∷ [])
      ++ reward 9 (block_reward byzantium + length (uncle ∷ []) * (block_reward byzantium / 32))
        ∷ []
finalize_lem_example =
    finalize_lem 2 9 (uncle ∷ []) byzantium (omega arith) (omega arith, omega arith, tt)

intrinsic_gas_lem_example :
    intrinsic_gas payment true true
    ≡ 21000
      + 32000
      + list_gas (record { address = 5; slots = 1 ∷ 2 ∷ [] } ∷ [])
      + input_gas true (0 ∷ 9 ∷ [])
unfolding access_list
intrinsic_gas_lem_example = intrinsic_gas_lem payment true true

pre_validate_transaction-IsPreValid_example :
    (pre_validate_transaction payment 1 (some 90) ≡ accept tt) ↔ IsPreValid payment 1 (some 90)
pre_validate_transaction-IsPreValid_example =
    pre_validate_transaction-IsPreValid payment 1 (some 90)

mined : validate mainnet 1020 chain parent true ≡ accept tt
unfolding validate get_parent_header validate_block_header expected_base_fee_per_gas
    canonical_difficulty formula explode get_delay_to switch_is_active
mined = refl

parent_small :
    (found : BlockHeader)
    → get_parent_header chain parent ≡ accept (some found)
    → found.difficulty < 2 ^ 254
unfolding get_parent_header
parent_small found h =
    let e : 131072 ≡ found.difficulty = ap (λ v. difficulty_or 0 v) h in omega (arith, e)
  where
    difficulty_or : ℕ → Verdict (Option BlockHeader) → ℕ
    difficulty_or n (accept (some p)) = p.difficulty
    difficulty_or n (accept none) = n
    difficulty_or n (reject e) = n

validate-IsMined_example :
    (validate mainnet 1020 chain parent true ≡ accept tt) ↔ IsMined mainnet 1020 chain parent true
validate-IsMined_example =
    validate-IsMined mainnet 1020 chain parent true (omega arith) (omega arith) parent_small

-- A header that is not later than its parent is rejected.
stale_header :
    validate_block_header none 1020 genesis parent false
    ≡ reject (invalid (invalid_timestamp 1013 1000))
unfolding validate_block_header
stale_header = refl
