-- ===== src/Store/Write.antt =====
-- state/intra_block_state.rs: `write_to_db`, over the writes of the `State` trait in
-- state/interface.rs, and those of the state in memory.
use martinez.Base.{ℕ, Option, none, some, List, [], ◌∷◌, if◌then◌else◌, ltb, Result, ok, ◌>>=◌}
use martinez.State.Types.{Address, Account, Object, Storage, Bytes, IntraBlockState, CommittedValue}
use martinez.Store.Types.{InMemoryState}
use martinez.Store.Updates.{begin_block, erase_storage, update_account, update_code, update_storage}

-- The writes of the `State` trait on a store.
pub record Writer (S : Type 0) : Type 0 where
  pub begin_block : ℕ → S → S
  pub erase_storage : Address → S → Result S
  pub update_storage : Address → ℕ → ℕ → ℕ → S → Result S
  pub update_account : Address → Option Account → Option Account → S → S
  pub update_code : ℕ → Bytes → S → Result S

-- The orders in which the maps are iterated.
pub record Orders : Type 0 where
  pub incarnations : List Address
  pub storage : List Address
  pub committed : Address → List ℕ
  pub objects : List Address
  pub new_code : List ℕ

module _ {S : Type 0} (db : Writer S) (s : IntraBlockState) where
  abbrev pub erase_if : Address → Option ℕ → S → Result S
  erase_if address none m = ok m
  erase_if address (some incarnation) m =
      if ltb 0 incarnation then db.erase_storage address m else ok m

  unfoldable pub erase_loop : List Address → S → Result S
  erase_loop [] m = ok m
  erase_loop (address ∷ rest) m = do
    m' ← erase_if address (s.incarnations address) m
    erase_loop rest m'

  abbrev pub write_committed : Address → ℕ → Option CommittedValue → S → Result S
  write_committed address key none m = ok m
  write_committed address key (some val) m =
      db.update_storage address key val.initial val.original m

  unfoldable pub slot_loop : Address → Storage → List ℕ → S → Result S
  slot_loop address storage [] m = ok m
  slot_loop address storage (key ∷ rest) m = do
    m' ← write_committed address key (storage.committed key) m
    slot_loop address storage rest m'

  -- `if let Some(obj)`, and `obj.current.is_some()`.
  abbrev pub write_storage : Address → List ℕ → Option Storage → Option Object → S → Result S
  write_storage address keys none object m = ok m
  write_storage address keys (some storage) none m = ok m
  write_storage address keys (some storage) (some obj) m = elim obj.current [
    | none ↦ ok m
    | some _ ↦ slot_loop address storage keys m
  ]

  unfoldable pub storage_loop : (Address → List ℕ) → List Address → S → Result S
  storage_loop keys [] m = ok m
  storage_loop keys (address ∷ rest) m = do
    m' ← write_storage address (keys address) (s.storage address) (s.objects address) m
    storage_loop keys rest m'

  abbrev pub write_object : Address → Option Object → S → S
  write_object address none m = m
  write_object address (some obj) m = db.update_account address obj.initial obj.current m

  unfoldable pub object_loop : List Address → S → S
  object_loop [] m = m
  object_loop (address ∷ rest) m = object_loop rest (write_object address (s.objects address) m)

  abbrev pub write_code : ℕ → Option Bytes → S → Result S
  write_code code_hash none m = ok m
  write_code code_hash (some code) m = db.update_code code_hash code m

  unfoldable pub code_loop : List ℕ → S → Result S
  code_loop [] m = ok m
  code_loop (code_hash ∷ rest) m = do
    m' ← write_code code_hash (s.new_code code_hash) m
    code_loop rest m'

  unfoldable pub write_to_db : Orders → ℕ → S → Result S
  write_to_db orders block_number m = do
    m₁ ← erase_loop orders.incarnations (db.begin_block block_number m)
    m₂ ← storage_loop orders.committed orders.storage m₁
    code_loop orders.new_code (object_loop orders.objects m₂)

abbrev pub in_memory : Writer InMemoryState
in_memory = record {
  begin_block = begin_block;
  erase_storage = λ address m. ok (erase_storage address m);
  update_storage =
      λ address location initial current m. ok (update_storage address location initial current m);
  update_account = update_account;
  update_code = λ code_hash code m. ok (update_code code_hash code m);
}
