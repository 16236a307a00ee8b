-- ===== src/Consensus/Transactions.antt =====
-- consensus/mod.rs: `pre_validate_transaction`; chain/intrinsic_gas.rs.
use martinez.Base.{
  ℕ, ◌+◌, ◌-◌, ◌*◌, ◌≤◌, Bool, true, false, not, ◌&&◌, Option, none, some, List, [], ◌∷◌, ◌≡◌, refl,
  inl, inr, ◌⊎◌, ltb, ◌==◌, ◌↔◌, if◌then◌else◌, arith, length,
}
use martinez.Consensus.Types.{
  Message, fields, AccessListItem, TransactionAction, call, create, chain_id, access_list,
  max_priority_fee_per_gas, max_fee_per_gas, wrong_chain_id, max_fee_less_than_base,
  max_priority_fee_greater_than_max, Verdict, accept, ◌>>◌, fail_if,
}
use martinez.Consensus.Headers.{fail_if_accept, fail_if_then}

abbrev pub other_chain : Option ℕ → ℕ → Bool
other_chain none canonical = false
other_chain (some id) canonical = not (id == canonical)

abbrev pub below_base : ℕ → Option ℕ → Bool
below_base fee none = false
below_base fee (some base_fee) = ltb fee base_fee

unfoldable pub pre_validate_transaction : Message → ℕ → Option ℕ → Verdict (Unit {0})
pre_validate_transaction txn canonical_chain_id base_fee_per_gas = do
  fail_if (other_chain (chain_id txn) canonical_chain_id) wrong_chain_id
  fail_if (below_base (max_fee_per_gas txn) base_fee_per_gas) max_fee_less_than_base
  fail_if (ltb (max_fee_per_gas txn) (max_priority_fee_per_gas txn))
      max_priority_fee_greater_than_max

-- The chain id is absent or the chain's, and the fees are in order.
pub record IsPreValid (txn : Message) (canonical : ℕ) (base_fee : Option ℕ) : Type 0 where
  pub chain : (chain_id txn ≡ none) ⊎ (chain_id txn ≡ some canonical)
  pub covers : (b : ℕ) → base_fee ≡ some b → b ≤ max_fee_per_gas txn
  pub tip : max_priority_fee_per_gas txn ≤ max_fee_per_gas txn

other_chain-false : (id : Option ℕ) (c : ℕ) → other_chain id c ≡ false → (id ≡ none) ⊎ (id ≡ some c)
other_chain-false none c h = inl refl
other_chain-false (some n) c h = inr (ground arith)

other_chain_of : (id : Option ℕ) (c : ℕ) → (id ≡ none) ⊎ (id ≡ some c) → other_chain id c ≡ false
other_chain_of id c h = ground arith

below_base-false :
    (fee : ℕ) (base : Option ℕ) → below_base fee base ≡ false → (b : ℕ) → base ≡ some b → b ≤ fee
below_base-false fee base h b e = ground arith

below_base_of :
    (fee : ℕ) (base : Option ℕ) → ((b : ℕ) → base ≡ some b → b ≤ fee) → below_base fee base ≡ false
below_base_of fee none h = refl
below_base_of fee (some b) h = let le = h b refl in ground arith

-- A transaction passes the checks before execution exactly if its chain id is absent or the
-- chain's, its maximal fee covers the block's base fee, and its tip is within its maximal fee.
pub pre_validate_transaction-IsPreValid :
    (txn : Message) (canonical : ℕ) (base_fee : Option ℕ)
    → (pre_validate_transaction txn canonical base_fee ≡ accept tt)
      ↔ IsPreValid txn canonical base_fee
unfolding pre_validate_transaction
pre_validate_transaction-IsPreValid txn canonical base_fee = (sound, complete)
  where
    sound :
        (fail_if (other_chain (chain_id txn) canonical) wrong_chain_id
            >> (fail_if (below_base (max_fee_per_gas txn) base_fee) max_fee_less_than_base
                >> fail_if
                    (ltb (max_fee_per_gas txn) (max_priority_fee_per_gas txn))
                    max_priority_fee_greater_than_max))
          ≡ accept tt
        → IsPreValid txn canonical base_fee
    sound h =
        let (c₁, h₁) = fail_if_then (other_chain (chain_id txn) canonical) _ _ h in
        let (c₂, h₂) = fail_if_then (below_base (max_fee_per_gas txn) base_fee) _ _ h₁ in
        let c₃ = fail_if_accept (ltb (max_fee_per_gas txn) (max_priority_fee_per_gas txn)) _ h₂ in
        record {
          chain = other_chain-false (chain_id txn) canonical c₁;
          covers = below_base-false (max_fee_per_gas txn) base_fee c₂;
          tip = ground arith;
        }

    complete :
        IsPreValid txn canonical base_fee
        → (fail_if (other_chain (chain_id txn) canonical) wrong_chain_id
            >> (fail_if (below_base (max_fee_per_gas txn) base_fee) max_fee_less_than_base
                >> fail_if
                    (ltb (max_fee_per_gas txn) (max_priority_fee_per_gas txn))
                    max_priority_fee_greater_than_max))
          ≡ accept tt
    complete v =
        let p₃ : ltb (max_fee_per_gas txn) (max_priority_fee_per_gas txn) ≡ false = ground arith in
        rw (other_chain_of _ canonical v.chain, below_base_of _ base_fee v.covers, p₃)

-- The constants of chain/protocol_param.rs.
abbrev g_transaction : ℕ
g_transaction = 21000

abbrev g_tx_create : ℕ
g_tx_create = 32000

abbrev access_list_address_cost : ℕ
access_list_address_cost = 2400

abbrev access_list_storage_key_cost : ℕ
access_list_storage_key_cost = 1900

abbrev g_tx_data_non_zero_istanbul : ℕ
g_tx_data_non_zero_istanbul = 16

abbrev g_tx_data_non_zero_frontier : ℕ
g_tx_data_non_zero_frontier = 68

abbrev g_tx_data_zero : ℕ
g_tx_data_zero = 4

abbrev is_create : TransactionAction → Bool
is_create (call to) = false
is_create create = true

-- `filter(|&&c| c != 0).count()`
unfoldable pub count_non_zero : List ℕ → ℕ
count_non_zero [] = 0
count_non_zero (c ∷ rest) = (if c == 0 then 0 else 1) + count_non_zero rest

unfoldable pub slots_gas : List AccessListItem → ℕ
slots_gas [] = 0
slots_gas (e ∷ rest) = length e.slots * access_list_storage_key_cost + slots_gas rest

abbrev is_empty : List ℕ → Bool
is_empty [] = true
is_empty (x ∷ xs) = false

-- The sums are u128, which gas costs of messages that fit in memory do not reach.
unfoldable pub intrinsic_gas : Message → Bool → Bool → ℕ
unfolding count_non_zero slots_gas
intrinsic_gas txn homestead istanbul =
    let base =
      g_transaction + (if is_create (fields txn).action && homestead then g_tx_create else 0) in
    let listed =
      base + length (access_list txn) * access_list_address_cost + slots_gas (access_list txn) in
    let input = (fields txn).input in
    let non_zero_bytes = count_non_zero input in
    let non_zero_gas =
      if istanbul then g_tx_data_non_zero_istanbul else g_tx_data_non_zero_frontier in
    let zero_bytes = length input - non_zero_bytes in
    if is_empty input
    then listed
    else listed + non_zero_bytes * non_zero_gas + zero_bytes * g_tx_data_zero

-- The cost of one byte of the input, and of one entry of the access list.
abbrev byte_gas : Bool → ℕ → ℕ
byte_gas istanbul c =
    if c == 0
    then g_tx_data_zero
    else if istanbul
    then g_tx_data_non_zero_istanbul
    else g_tx_data_non_zero_frontier

abbrev pub input_gas : Bool → List ℕ → ℕ
input_gas istanbul [] = 0
input_gas istanbul (c ∷ rest) = byte_gas istanbul c + input_gas istanbul rest

abbrev pub list_gas : List AccessListItem → ℕ
list_gas [] = 0
list_gas (e ∷ rest) = (2400 + 1900 * length e.slots) + list_gas rest

count_le : (input : List ℕ) → count_non_zero input ≤ length input
unfolding count_non_zero
count_le [] = omega arith
count_le (c ∷ rest) = ground (arith, count_le rest)

list_gas_eq : (l : List AccessListItem) → length l * 2400 + slots_gas l ≡ list_gas l
unfolding slots_gas
list_gas_eq [] = omega arith
list_gas_eq (e ∷ rest) = omega (arith, list_gas_eq rest)

input_gas_eq :
    (istanbul : Bool) (input : List ℕ)
    → count_non_zero input * (if istanbul then 16 else 68)
        + (length input - count_non_zero input) * 4
      ≡ input_gas istanbul input
unfolding count_non_zero
input_gas_eq istanbul [] = omega arith
input_gas_eq true (c ∷ rest) = ground (arith, input_gas_eq true rest, count_le rest)
input_gas_eq false (c ∷ rest) = ground (arith, input_gas_eq false rest, count_le rest)

-- The intrinsic gas is 21000, with 32000 more for a creation from Homestead on, plus the cost of
-- each access list entry (2400, and 1900 for each key) and of each input byte (4 for a zero; else 16
-- from Istanbul on and 68 before).
pub intrinsic_gas_lem :
    (txn : Message) (homestead istanbul : Bool)
    → intrinsic_gas txn homestead istanbul
      ≡ 21000
        + (if is_create (fields txn).action && homestead then 32000 else 0)
        + list_gas (access_list txn)
        + input_gas istanbul (fields txn).input
unfolding intrinsic_gas
intrinsic_gas_lem txn homestead istanbul = elim_input (fields txn).input refl
  where
    elim_input :
        (input : List ℕ)
        → (fields txn).input ≡ input
        → intrinsic_gas txn homestead istanbul
          ≡ 21000
            + (if is_create (fields txn).action && homestead then 32000 else 0)
            + list_gas (access_list txn)
            + input_gas istanbul (fields txn).input
    elim_input [] e = rw e (omega (arith, list_gas_eq (access_list txn)))
    elim_input (c ∷ rest) e =
        rw e (omega (arith, list_gas_eq (access_list txn), input_gas_eq istanbul (c ∷ rest)))
