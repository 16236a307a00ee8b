-- ===== src/State/Accounts.antt =====
-- state/intra_block_state.rs: the operations on accounts, their code and their life.
use martinez.Base.{
  ℕ, ◌+◌, ◌-◌, ◌%◌, ◌^◌, Bool, true, false, not, ◌&&◌, Option, none, some, List, [], ◌∷◌, ◌==◌,
  if◌then◌else◌, Result, ok, insert, remove, update, is_some, unwrap, unwrap_or, ◌>>=◌,
}
use martinez.State.Types.{
  Address, Bytes, empty_hash, Account, default_account, Object, Storage, Delta, create,
  update_object, update_balance, incarnation, selfdestruct, touch_delta, storage_wipe,
  storage_create, Db, IntraBlockState,
}
use martinez.State.Objects.{get_object, get_or_create_object}

abbrev pub ripemd_address : Address
ripemd_address = 3

-- The anomaly of the Yellow Paper's Appendix K: the touch of RIPEMD-160 is not journalled.
unfoldable pub touch : Address → IntraBlockState → IntraBlockState
touch address s =
    let inserted = not (s.touched address) in
    let s' : IntraBlockState = record s { touched = update s.touched address true } in
    if inserted && not (address == ripemd_address)
    then record s' { journal = touch_delta address ∷ s'.journal }
    else s'

-- `self_destructs.insert` says whether the address is new.
unfoldable pub record_selfdestruct : Address → IntraBlockState → IntraBlockState
record_selfdestruct address s = if s.self_destructs address then s else record s {
  self_destructs = update s.self_destructs address true;
  journal = selfdestruct address ∷ s.journal;
}

abbrev pub object_exists : Option Object → Bool
object_exists none = false
object_exists (some object) = is_some object.current

abbrev pub account_dead : Option Account → Bool
account_dead none = true
account_dead (some current) =
    current.code_hash == empty_hash && current.nonce == 0 && current.balance == 0

abbrev pub object_dead : Option Object → Bool
object_dead none = true
object_dead (some object) = account_dead object.current

-- A field of the current account, with what the getter returns without one.
abbrev pub current_or {ℓ} : {A : Type ℓ} → A → (Account → A) → Option Object → A
current_or d f none = d
current_or d f (some object) = elim object.current [ none ↦ d | some account ↦ f account ]

-- `entry(hash).or_insert(code)`: code that is there already is kept.
abbrev pub keep_code : ℕ → Bytes → IntraBlockState → IntraBlockState
keep_code hash code s = record s {
  new_code = update s.new_code hash (some (unwrap_or code (s.new_code hash)));
}

-- What `create_contract` takes over of an object: its initial account and its balance.
abbrev pub initial_of : Option Object → Option Account
initial_of none = none
initial_of (some prev) = prev.initial

abbrev pub fresh_account : Option Object → Account
fresh_account prev = record default_account {
  balance = current_or 0 (λ account. account.balance) prev;
}

abbrev pub replaced : Address → Option Object → Delta
replaced address none = create address
replaced address (some prev) = update_object address prev

abbrev pub increment : Address → IntraBlockState → IntraBlockState
increment address s = record s {
  incarnations = insert address (unwrap_or 0 (s.incarnations address) + 1) s.incarnations;
}

abbrev pub removed_storage : Address → Option Storage → Delta
removed_storage address none = storage_create address
removed_storage address (some storage) = storage_wipe address storage

abbrev pub drop_current : Address → Option Object → IntraBlockState → IntraBlockState
drop_current address none s = s
drop_current address (some object) s = record s {
  objects = insert address (record object { current = none }) s.objects;
}

module _ (db : Db) where
  unfoldable pub exists : Address → IntraBlockState → Result (Bool × IntraBlockState)
  exists address s = do (object, s') ← get_object db address s; ok (object_exists object, s')

  unfoldable pub is_dead : Address → IntraBlockState → Result (Bool × IntraBlockState)
  is_dead address s = do (object, s') ← get_object db address s; ok (object_dead object, s')

  unfoldable pub get_balance : Address → IntraBlockState → Result (ℕ × IntraBlockState)
  get_balance address s = do
    (object, s') ← get_object db address s
    ok (current_or 0 (λ account. account.balance) object, s')

  unfoldable pub get_nonce : Address → IntraBlockState → Result (ℕ × IntraBlockState)
  get_nonce address s = do
    (object, s') ← get_object db address s
    ok (current_or 0 (λ account. account.nonce) object, s')

  unfoldable pub get_code_hash : Address → IntraBlockState → Result (ℕ × IntraBlockState)
  get_code_hash address s = do
    (object, s') ← get_object db address s
    ok (current_or empty_hash (λ account. account.code_hash) object, s')

  -- Pushes `UpdateBalance`, writes the new balance and touches the account: the common part of
  -- `set_balance`, `add_to_balance` and `subtract_from_balance`.
  unfoldable pub change_balance : Address → (ℕ → ℕ) → IntraBlockState → Result IntraBlockState
  unfolding touch
  change_balance address f s = do
    (object, s') ← get_or_create_object db address s
    account ← unwrap object.current
    ok (
        touch address (record s' {
          journal = update_balance address account.balance ∷ s'.journal;
          objects =
              insert address
                (record object { current = some (record account { balance = f account.balance }) })
                s'.objects;
        }))

  unfoldable pub set_balance : Address → ℕ → IntraBlockState → Result IntraBlockState
  set_balance address value s = change_balance address (λ balance. value) s

  unfoldable pub add_to_balance : Address → ℕ → IntraBlockState → Result IntraBlockState
  add_to_balance address addend s =
      change_balance address (λ balance. (balance + addend) % 2 ^ 256) s

  unfoldable pub subtract_from_balance : Address → ℕ → IntraBlockState → Result IntraBlockState
  subtract_from_balance address subtrahend s =
      change_balance address (λ balance. (balance + 2 ^ 256 - subtrahend) % 2 ^ 256) s

  -- Pushes `Update` with the whole object and writes the current account: the common part of
  -- `set_nonce` and `set_code`.
  unfoldable pub change_account :
      Address → (Account → Account) → IntraBlockState → Result IntraBlockState
  change_account address f s = do
    (object, s') ← get_or_create_object db address s
    account ← unwrap object.current
    ok (record s' {
      journal = update_object address object ∷ s'.journal;
      objects = insert address (record object { current = some (f account) }) s'.objects;
    })

  unfoldable pub set_nonce : Address → ℕ → IntraBlockState → Result IntraBlockState
  set_nonce address nonce s = change_account address (λ account. record account { nonce = nonce }) s

  unfoldable pub set_code : Address → Bytes → IntraBlockState → Result IntraBlockState
  set_code address code s = do
    let hash = db.keccak256 code
    s' ← change_account address (λ account. record account { code_hash = hash }) s
    ok (keep_code hash code s')

  abbrev pub load_code :
      ℕ → Option Bytes → Option Bytes → IntraBlockState → Result (Option Bytes × IntraBlockState)
  load_code hash (some code) existing s = ok (some code, s)
  load_code hash none (some code) s = ok (some code, s)
  load_code hash none none s = do
    code ← db.read_code hash
    ok (some code, record s { existing_code = insert hash code s.existing_code })

  abbrev pub code_of : Option ℕ → IntraBlockState → Result (Option Bytes × IntraBlockState)
  code_of none s = ok (none, s)
  code_of (some hash) s =
      if hash == empty_hash
      then ok (none, s)
      else load_code hash (s.new_code hash) (s.existing_code hash) s

  unfoldable pub get_code : Address → IntraBlockState → Result (Option Bytes × IntraBlockState)
  get_code address s = do
    (object, s') ← get_object db address s
    code_of (current_or none (λ account. some account.code_hash) object) s'

  unfoldable pub create_contract : Address → IntraBlockState → Result IntraBlockState
  create_contract address s = do
    (prev, s₁) ← get_object db address s
    let s₂ = increment address (record s₁ { journal = replaced address prev ∷ s₁.journal })
    let object : Object = record { current = some (fresh_account prev); initial = initial_of prev }
    ok (record s₂ {
      objects = insert address object s₂.objects;
      storage = remove address s₂.storage;
      journal = removed_storage address (s₂.storage address) ∷ incarnation address ∷ s₂.journal;
    })

  -- No delta: it is called at the end of a transaction, where no snapshot is needed.
  unfoldable pub destruct : Address → IntraBlockState → Result IntraBlockState
  destruct address s = do
    let s₁ = increment address s
    (object, s₂) ← get_object db address (record s₁ { storage = remove address s₁.storage })
    ok (drop_current address object s₂)

  -- The list is the order in which the set `self_destructs` was iterated.
  unfoldable pub destruct_selfdestructs : List Address → IntraBlockState → Result IntraBlockState
  destruct_selfdestructs [] s = ok s
  destruct_selfdestructs (address ∷ rest) s = do
    s' ← destruct address s
    destruct_selfdestructs rest s'

  abbrev pub destruct_if : Address → Bool → IntraBlockState → Result IntraBlockState
  destruct_if address true s = destruct address s
  destruct_if address false s = ok s

  -- The list is the order in which the set `touched` was iterated.
  unfoldable pub destruct_touched_dead : List Address → IntraBlockState → Result IntraBlockState
  destruct_touched_dead [] s = ok s
  destruct_touched_dead (address ∷ rest) s = do
    (dead, s₁) ← is_dead address s
    s₂ ← destruct_if address dead s₁
    destruct_touched_dead rest s₂
