-- ===== src/State/Objects.antt =====
-- state/intra_block_state.rs: how an account's object is found, read from the database or made.
use martinez.Base.{Option, none, some, ◌∷◌, Result, ok, insert, unwrap, ◌>>=◌}
use martinez.State.Types.{
  Address, Account, default_account, Object, create, update_object, Db, IntraBlockState,
}

-- What `Entry::Vacant` does with the account that was read.
abbrev pub fill : Address → Option Account → IntraBlockState → Option Object × IntraBlockState
fill address none s = (none, s)
fill address (some account) s =
    let object : Object = record { initial = some account; current = some account } in
    (some object, record s { objects = insert address object s.objects })

-- `Some(Account::default())` in place of a destroyed account.
abbrev pub ensure_current : Address → Object → Option Account → IntraBlockState → IntraBlockState
ensure_current address object none s = record s {
  journal = update_object address object ∷ s.journal;
  objects = insert address (record object { current = some default_account }) s.objects;
}
ensure_current address object (some account) s = s

abbrev pub ensure_entry : Address → Option Object → IntraBlockState → IntraBlockState
ensure_entry address (some object) s = ensure_current address object object.current s
ensure_entry address none s = record s {
  journal = create address ∷ s.journal;
  objects = insert address (record { initial = none; current = some default_account }) s.objects;
}

module _ (db : Db) where
  abbrev pub get_object_entry :
      Address → Option Object → IntraBlockState → Result (Option Object × IntraBlockState)
  get_object_entry address (some object) s = ok (some object, s)
  get_object_entry address none s = do
    accdata ← db.read_account address
    ok (fill address accdata s)

  unfoldable pub get_object : Address → IntraBlockState → Result (Option Object × IntraBlockState)
  get_object address s = get_object_entry address (s.objects address) s

  unfoldable pub ensure_object : Address → IntraBlockState → Result IntraBlockState
  ensure_object address s = do
    (object, s') ← get_object address s
    ok (ensure_entry address object s')

  -- `objects.get_mut(&address).unwrap()` gives the object; the state goes on beside it.
  unfoldable pub get_or_create_object :
      Address → IntraBlockState → Result (Object × IntraBlockState)
  get_or_create_object address s = do
    s' ← ensure_object address s
    object ← unwrap (s'.objects address)
    ok (object, s')
