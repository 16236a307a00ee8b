-- ===== src/State/Runs.antt =====
-- The calls that a transaction makes on the block state between a snapshot and its revert, with
-- the snapshots and reverts of inner calls. An operation that fails ends the block, so a step is
-- one that returned.
use martinez.Base.{ℕ, Bool, Option, true, ◌≡◌, ok}
use martinez.State.Types.{Address, Bytes, Log, Db, IntraBlockState}
use martinez.State.Accounts
use martinez.State.Access
use martinez.State.Slots
use martinez.State.Journal.{take_snapshot, revert_to_snapshot}

pub data Step (db : Db) (s : IntraBlockState) : IntraBlockState → Type 0 where
  exists :
      {t : IntraBlockState} (a : Address) (v : Bool)
      → Accounts.exists db a s ≡ ok (v, t)
      → Step db s t
  is_dead :
      {t : IntraBlockState} (a : Address) (v : Bool)
      → Accounts.is_dead db a s ≡ ok (v, t)
      → Step db s t
  get_balance :
      {t : IntraBlockState} (a : Address) (v : ℕ)
      → Accounts.get_balance db a s ≡ ok (v, t)
      → Step db s t
  get_nonce :
      {t : IntraBlockState} (a : Address) (v : ℕ)
      → Accounts.get_nonce db a s ≡ ok (v, t)
      → Step db s t
  get_code_hash :
      {t : IntraBlockState} (a : Address) (v : ℕ)
      → Accounts.get_code_hash db a s ≡ ok (v, t)
      → Step db s t
  get_code :
      {t : IntraBlockState} (a : Address) (v : Option Bytes)
      → Accounts.get_code db a s ≡ ok (v, t)
      → Step db s t
  create_contract :
      {t : IntraBlockState} (a : Address) → Accounts.create_contract db a s ≡ ok t → Step db s t
  record_selfdestruct : (a : Address) → Step db s (Accounts.record_selfdestruct a s)
  set_balance :
      {t : IntraBlockState} (a : Address) (v : ℕ)
      → Accounts.set_balance db a v s ≡ ok t
      → Step db s t
  add_to_balance :
      {t : IntraBlockState} (a : Address) (v : ℕ)
      → Accounts.add_to_balance db a v s ≡ ok t
      → Step db s t
  subtract_from_balance :
      {t : IntraBlockState} (a : Address) (v : ℕ)
      → Accounts.subtract_from_balance db a v s ≡ ok t
      → Step db s t
  touch : (a : Address) → Step db s (Accounts.touch a s)
  set_nonce :
      {t : IntraBlockState} (a : Address) (v : ℕ) → Accounts.set_nonce db a v s ≡ ok t → Step db s t
  set_code :
      {t : IntraBlockState} (a : Address) (code : Bytes)
      → Accounts.set_code db a code s ≡ ok t
      → Step db s t
  access_account : (a : Address) → Step db s (Access.access_account a s).1
  access_storage : (a : Address) (key : ℕ) → Step db s (Access.access_storage a key s).1
  get_current_storage :
      {t : IntraBlockState} (a : Address) (key v : ℕ)
      → Slots.get_current_storage db a key s ≡ ok (v, t)
      → Step db s t
  get_original_storage :
      {t : IntraBlockState} (a : Address) (key v : ℕ)
      → Slots.get_original_storage db a key s ≡ ok (v, t)
      → Step db s t
  -- The EVM writes storage of the running contract only, an account that exists.
  set_storage :
      {t : IntraBlockState} (u : IntraBlockState) (a : Address) (key v : ℕ)
      → Accounts.exists db a s ≡ ok (true, u)
      → Slots.set_storage db a key v s ≡ ok t
      → Step db s t
  add_log : (log : Log) → Step db s (Access.add_log log s)
  add_refund : (v : ℕ) → Step db s (Access.add_refund v s)
  subtract_refund : (v : ℕ) → Step db s (Access.subtract_refund v s)

pub data Run (db : Db) : IntraBlockState → IntraBlockState → Type 0 where
  start : {s : IntraBlockState} → Run db s s
  step : {s t u : IntraBlockState} → Run db s t → Step db t u → Run db s u
  -- An inner call that fails: its effects are rolled back to the snapshot taken before it.
  rolled_back :
      {s t u v : IntraBlockState}
      → Run db s t
      → Run db t u
      → revert_to_snapshot (take_snapshot t) u ≡ ok v
      → Run db s v
