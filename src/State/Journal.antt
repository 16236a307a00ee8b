-- ===== src/State/Journal.antt =====
-- state/delta.rs, and the snapshots of state/intra_block_state.rs.
use martinez.Base.{
  ℕ, zero, suc, ◌-◌, false, Option, none, some, [], ◌∷◌, ◌==◌, ltb, if◌then◌else◌, length, take,
  Result, ok, err, panic, no_element, insert, remove, update, unwrap, unwrap_or, ◌>>=◌,
}
use martinez.State.Types.{
  Address, Object, Account, default_storage, Delta, create, update_object, update_balance,
  incarnation, selfdestruct, touch_delta, storage_change, storage_wipe, storage_create,
  storage_access, account_access, IntraBlockState, Snapshot,
}

abbrev pub revert_balance : Address → ℕ → Object → Account → IntraBlockState → IntraBlockState
revert_balance address previous object account s = record s {
  objects =
      insert address (record object { current = some (record account { balance = previous }) })
        s.objects;
}

-- `Entry::Occupied` or `unreachable!`; the count falls by one and leaves the map at zero.
abbrev pub decrement : Address → Option ℕ → IntraBlockState → Result IntraBlockState
decrement address none s = err panic
decrement address (some n) s = ok (record s {
  incarnations =
      if n - 1 == 0 then remove address s.incarnations else insert address (n - 1) s.incarnations;
})

unfoldable pub revert : Delta → IntraBlockState → Result IntraBlockState
revert (create address) s = ok (record s { objects = remove address s.objects })
revert (update_object address previous) s =
    ok (record s { objects = insert address previous s.objects })
revert (update_balance address previous) s = do
  object ← unwrap (s.objects address)
  account ← unwrap object.current
  ok (revert_balance address previous object account s)
revert (incarnation address) s = decrement address (s.incarnations address) s
revert (selfdestruct address) s =
    ok (record s { self_destructs = update s.self_destructs address false })
revert (touch_delta address) s = ok (record s { touched = update s.touched address false })
revert (storage_change address key previous) s =
    let storage = unwrap_or default_storage (s.storage address) in
    ok (record s {
      storage =
          insert address (record storage { current = insert key previous storage.current })
            s.storage;
    })
revert (storage_wipe address storage) s =
    ok (record s { storage = insert address storage s.storage })
revert (storage_create address) s = ok (record s { storage = remove address s.storage })
revert (storage_access address key) s =
    let keys = unwrap_or no_element (s.accessed_storage_keys address) in
    ok (record s {
      accessed_storage_keys = insert address (update keys key false) s.accessed_storage_keys;
    })
revert (account_access address) s =
    ok (record s { accessed_addresses = update s.accessed_addresses address false })

unfoldable pub take_snapshot : IntraBlockState → Snapshot
take_snapshot s = record {
  journal_size = length s.journal;
  log_size = length s.logs;
  refund = s.refund;
}

-- The body of the loop: `self.journal.pop().unwrap().revert(self)`.
unfoldable pub pop_revert : IntraBlockState → Result IntraBlockState
pop_revert s = elim s.journal [
  | [] ↦ err panic
  | delta ∷ rest ↦ revert delta (record s { journal = rest })
]

unfoldable pub revert_loop : ℕ → IntraBlockState → Result IntraBlockState
revert_loop zero s = ok s
revert_loop (suc n) s = do s' ← pop_revert s; revert_loop n s'

-- With a journal shorter than the snapshot's the count wraps, and the pops run out: a panic.
unfoldable pub revert_to_snapshot : Snapshot → IntraBlockState → Result IntraBlockState
revert_to_snapshot snapshot s =
    if ltb (length s.journal) snapshot.journal_size then err panic else do
      s' ← revert_loop (length s.journal - snapshot.journal_size) s
      ok (record s' { logs = take snapshot.log_size s'.logs; refund = snapshot.refund })
