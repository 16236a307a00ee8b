-- ===== src/State/Slots.antt =====
-- state/intra_block_state.rs: contract storage and the end of a transaction.
use martinez.Base.{
  ℕ, Bool, true, false, not, ◌||◌, Option, none, some, [], ◌∷◌, ◌==◌, if◌then◌else◌, Result, ok,
  no_key, no_element, insert, is_some, unwrap_or, ◌>>=◌,
}
use martinez.State.Types.{
  Address, Object, CommittedValue, Storage, default_storage, storage_change, Db, IntraBlockState,
}
use martinez.State.Objects.{get_object}
use martinez.State.Accounts.{object_exists, initial_of}

-- `storage.entry(address).or_default()`
abbrev pub entry : Address → IntraBlockState → Storage
entry address s = unwrap_or default_storage (s.storage address)

abbrev pub with_entry : Address → Storage → IntraBlockState → IntraBlockState
with_entry address storage s = record s { storage = insert address storage s.storage }

-- `!original` and the current value, else the committed one.
abbrev pub cached : Bool → Option ℕ → Option CommittedValue → Option ℕ
cached false (some v) committed = some v
cached false none (some c) = some c.original
cached true current (some c) = some c.original
cached original _ none = none

abbrev pub write_slot : Address → ℕ → ℕ → ℕ → IntraBlockState → IntraBlockState
write_slot address key value previous s =
    let storage = entry address s in
    let s' : IntraBlockState =
      with_entry address (record storage { current = insert key value storage.current }) s in
    record s' { journal = storage_change address key previous ∷ s'.journal }

module _ (db : Db) where
  abbrev pub read_slot :
      Address → ℕ → Option ℕ → Bool → IntraBlockState → Result (ℕ × IntraBlockState)
  read_slot address key (some v) unread s = ok (v, s)
  read_slot address key none true s = ok (0, s)
  read_slot address key none false s = do
    val ← db.read_storage address key
    let storage = entry address s
    let value : CommittedValue = record { initial = val; original = val }
    ok (
      val,
      with_entry address (record storage { committed = insert key value storage.committed }) s,
    )

  abbrev pub read_current :
      Address → ℕ → Bool → Option Object → IntraBlockState → Result (ℕ × IntraBlockState)
  read_current address key original object s =
      if object_exists object
      then (let storage = entry address s in
          read_slot address key (cached original (storage.current key) (storage.committed key))
            (not (is_some (initial_of object)) || is_some (s.incarnations address))
            (with_entry address storage s))
      else ok (0, s)

  unfoldable pub get_storage : Address → ℕ → Bool → IntraBlockState → Result (ℕ × IntraBlockState)
  get_storage address key original s = do
    (object, s') ← get_object db address s
    read_current address key original object s'

  unfoldable pub get_current_storage : Address → ℕ → IntraBlockState → Result (ℕ × IntraBlockState)
  get_current_storage address key s = get_storage address key false s

  unfoldable pub get_original_storage : Address → ℕ → IntraBlockState → Result (ℕ × IntraBlockState)
  get_original_storage address key s = get_storage address key true s

  unfoldable pub set_storage : Address → ℕ → ℕ → IntraBlockState → Result IntraBlockState
  set_storage address key value s = do
    (previous, s') ← get_current_storage address key s
    if previous == value then ok s' else ok (write_slot address key value previous s')

-- For each current value, `committed.entry(key).or_default().original = val`.
abbrev pub finalize_value : Option ℕ → Option CommittedValue → Option CommittedValue
finalize_value none committed = committed
finalize_value (some val) none = some (record { initial = 0; original = val })
finalize_value (some val) (some committed) = some (record committed { original = val })

abbrev pub finalize_storage : Option Storage → Option Storage
finalize_storage none = none
finalize_storage (some storage) = some (record {
  committed = λ key. finalize_value (storage.current key) (storage.committed key);
  current = no_key;
})

unfoldable pub finalize_transaction : IntraBlockState → IntraBlockState
finalize_transaction s = record s { storage = λ address. finalize_storage (s.storage address) }

unfoldable pub clear_journal_and_substate : IntraBlockState → IntraBlockState
clear_journal_and_substate s = record s {
  journal = [];
  self_destructs = no_element;
  logs = [];
  touched = no_element;
  refund = 0;
  accessed_addresses = no_element;
  accessed_storage_keys = no_key;
}
