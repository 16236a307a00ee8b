-- ===== src/State/Access.antt =====
-- state/intra_block_state.rs: the EIP-2929 access sets, the logs and the refund counter.
use martinez.Base.{
  ℕ, ◌+◌, ◌-◌, ◌%◌, ◌^◌, true, [], ◌∷◌, ◌++◌, if◌then◌else◌, no_element, insert, update, unwrap_or,
}
use martinez.State.Types.{Address, Log, storage_access, account_access, IntraBlockState}

pub data AccessStatus : Type 0 where
  cold warm : AccessStatus

unfoldable pub access_account : Address → IntraBlockState → AccessStatus × IntraBlockState
access_account address s = if s.accessed_addresses address then (warm, s) else (
  cold,
  record s {
    accessed_addresses = update s.accessed_addresses address true;
    journal = account_access address ∷ s.journal;
  },
)

-- `accessed_storage_keys.entry(address).or_default()` makes the entry in either case.
unfoldable pub access_storage : Address → ℕ → IntraBlockState → AccessStatus × IntraBlockState
access_storage address key s =
    let keys = unwrap_or no_element (s.accessed_storage_keys address) in
    let s' : IntraBlockState = record s {
      accessed_storage_keys = insert address (update keys key true) s.accessed_storage_keys;
    } in
    if keys key
    then (warm, s')
    else (cold, record s' { journal = storage_access address key ∷ s'.journal })

unfoldable pub add_log : Log → IntraBlockState → IntraBlockState
add_log log s = record s { logs = s.logs ++ log ∷ [] }

-- u64 arithmetic, as it wraps in the production profile.
unfoldable pub add_refund : ℕ → IntraBlockState → IntraBlockState
add_refund addend s = record s { refund = (s.refund + addend) % 2 ^ 64 }

unfoldable pub subtract_refund : ℕ → IntraBlockState → IntraBlockState
subtract_refund subtrahend s = record s { refund = (s.refund + 2 ^ 64 - subtrahend) % 2 ^ 64 }
