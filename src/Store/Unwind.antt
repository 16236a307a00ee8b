-- ===== src/Store/Unwind.antt =====
-- Unwinding a block that `write_to_db` has written.
use martinez.Base.{
  ℕ, Option, none, some, List, [], ◌∷◌, ◌≡◌, refl, ap, ◌∙◌, ◌==◌, ==-self, if◌then◌else◌, ltb, ok,
  update, insert, unwrap_or, inl, inr, Bool-cases, Option-cases, arith, at_key,
}
use martinez.State.Types.{Address, Account, Object, Storage, CommittedValue, IntraBlockState}
use martinez.Store.Types.{InMemoryState}
use martinez.Store.Updates.{
  begin_block, erase_storage, update_account, update_code, update_storage, unwind_state_changes,
  unwound_account, unwound_slot, overlay, put_slot, read_account, read_storage,
}
use martinez.Store.Write.{
  Orders, in_memory, erase_if, erase_loop, slot_loop, write_storage, storage_loop, object_loop,
  code_loop, write_to_db,
}

-- Nothing was written under the block's number.
pub record IsFresh (n : ℕ) (m : InMemoryState) : Type 0 where
  pub accounts : (a : Address) → m.account_changes n a ≡ none
  pub slots : (a : Address) (key : ℕ) → m.storage_changes n a key ≡ none

-- The initial accounts and values in the block state are those of the database.
pub record HasInitials (s : IntraBlockState) (m : InMemoryState) : Type 0 where
  pub accounts : (a : Address) (o : Object) → s.objects a ≡ some o → o.initial ≡ m.accounts a
  pub slots :
      (a : Address) (key : ℕ) (storage : Storage) (c : CommittedValue)
      → s.storage a ≡ some storage
      → storage.committed key ≡ some c
      → c.initial ≡ unwrap_or 0 (m.storage a key)

-- `x` was made from `m` by writes under the number `n`, and can be unwound.
record CanUnwind (m : InMemoryState) (n : ℕ) (x : InMemoryState) : Type 0 where
  number : x.block_number ≡ n
  accounts : (a : Address) → unwound_account (x.account_changes n a) (x.accounts a) ≡ m.accounts a
  slots :
      (a : Address) (key : ℕ)
      → unwrap_or 0 (unwound_slot (x.storage_changes n a key) (x.storage a key))
        ≡ unwrap_or 0 (m.storage a key)

-- What is left in the storage was not changed yet.
abbrev IsUntouched : ℕ → InMemoryState → Type 0
IsUntouched n x =
    (a : Address) (key v : ℕ) → x.storage a key ≡ some v → x.storage_changes n a key ≡ none

slot_back : (v : ℕ) (slot : Option ℕ) → unwrap_or 0 (unwound_slot (some v) slot) ≡ v
slot_back v slot = ground arith

erased_slot :
    (slot change : Option ℕ) (value : ℕ)
    → ((v : ℕ) → slot ≡ some v → change ≡ none)
    → unwrap_or 0 (unwound_slot change slot) ≡ value
    → unwrap_or 0 (unwound_slot (elim slot [ some v ↦ some v | none ↦ change ]) none) ≡ value
erased_slot none change value h e = e
erased_slot (some v) change value h e =
    let none_yet = h v refl in slot_back v none ∙ (rw none_yet at e)

module _ (m : InMemoryState) where
  erase-CanUnwind :
      (n : ℕ) (x : InMemoryState) (address : Address)
      → IsUntouched n x
      → CanUnwind m n x
      → CanUnwind m n (erase_storage address x) × IsUntouched n (erase_storage address x)
  unfolding erase_storage
  erase-CanUnwind n x address h w = (
    record {
      number = w.number;
      accounts = w.accounts;
      slots = λ a key.
          rw (w.number, ==-self)
            (at_key
              (λ (b : Address).
                unwrap_or 0 (
                  unwound_slot
                    ((if address == b
                        then overlay (x.storage address) (x.storage_changes n address)
                        else x.storage_changes n b)
                      key)
                    ((if address == b then (λ k. none) else x.storage b) key))
                ≡ unwrap_or 0 (m.storage b key))
              address
              (rw ==-self
                (erased_slot (x.storage address key) _ _ (h address key) (w.slots address key)))
              (λ b other. rw other (w.slots b key)) a);
    },
    λ a key v e.
        rw (w.number, ==-self)
          (elim (Bool-cases (address == a)) [
            | inl same ↦ absurd (let bad = rw same at e in cc)
            | inr other ↦ rw other (h a key v (rw other at e))
          ]),
  )

  update_storage-CanUnwind :
      (n : ℕ) (x : InMemoryState) (address : Address) (key initial current : ℕ)
      → initial ≡ unwrap_or 0 (m.storage address key)
      → CanUnwind m n x
      → CanUnwind m n (update_storage address key initial current x)
  unfolding update_storage
  update_storage-CanUnwind n x address key initial current e w = record {
    number = w.number;
    accounts = w.accounts;
    slots = λ a k.
        rw (w.number, ==-self)
          (at_key
            (λ (b : Address).
              unwrap_or 0 (
                unwound_slot
                  ((if address == b
                      then insert key initial (x.storage_changes n address)
                      else x.storage_changes n b)
                    k)
                  ((if address == b then put_slot key current (x.storage address) else x.storage b)
                    k))
              ≡ unwrap_or 0 (m.storage b k))
            address
            (rw ==-self (
              at_key
                (λ (j : ℕ).
                  unwrap_or 0 (
                    unwound_slot (insert key initial (x.storage_changes n address) j)
                      (put_slot key current (x.storage address) j))
                  ≡ unwrap_or 0 (m.storage address j))
                key
                (rw ==-self (slot_back initial (if current == 0 then none else some current) ∙ e))
                (λ j other. rw other (w.slots address j)) k))
            (λ b other. rw other (w.slots b k)) a);
  }

  update_account-CanUnwind :
      (n : ℕ) (x : InMemoryState) (address : Address) (initial current : Option Account)
      → initial ≡ m.accounts address
      → CanUnwind m n x
      → CanUnwind m n (update_account address initial current x)
  unfolding update_account
  update_account-CanUnwind n x address initial current e w = record {
    number = w.number;
    accounts = λ a.
        rw (w.number, ==-self)
          (at_key
            (λ (b : Address).
              unwound_account (insert address initial (x.account_changes n) b)
                (update x.accounts address current b)
              ≡ m.accounts b)
            address (rw ==-self e) (λ b other. rw other (w.accounts b)) a);
    slots = w.slots;
  }

module _ (m : InMemoryState) (s : IntraBlockState) (n : ℕ) where
  abbrev Erased : InMemoryState → Type 0
  Erased x = CanUnwind m n x × IsUntouched n x

  erase_if-Erased :
      (address : Address) (incarnation : Option ℕ) (x : InMemoryState)
      → Erased x
      → (y : InMemoryState) × (erase_if in_memory s address incarnation x ≡ ok y) × Erased y
  erase_if-Erased address none x w = (x, refl, w)
  erase_if-Erased address (some k) x w = elim (Bool-cases (ltb 0 k)) [
    | inl above ↦ (erase_storage address x, rw above, erase-CanUnwind m n x address w.1 w.0)
    | inr zero_count ↦ (x, rw zero_count, w)
  ]

  erase_loop-Erased :
      (order : List Address) (x : InMemoryState)
      → Erased x
      → (y : InMemoryState) × (erase_loop in_memory s order x ≡ ok y) × Erased y
  unfolding erase_loop
  erase_loop-Erased [] x w = (x, refl, w)
  erase_loop-Erased (address ∷ rest) x w =
      let (y, e, w') = erase_if-Erased address (s.incarnations address) x w in
      let (z, e', w'') = erase_loop-Erased rest y w' in (z, rw e e', w'')

module _ (m : InMemoryState) (s : IntraBlockState) (n : ℕ) (h : HasInitials s m) where
  slot_loop-CanUnwind :
      (address : Address) (storage : Storage) (keys : List ℕ) (x : InMemoryState)
      → s.storage address ≡ some storage
      → CanUnwind m n x
      → (y : InMemoryState) × (slot_loop in_memory s address storage keys x ≡ ok y)
        × CanUnwind m n y
  unfolding slot_loop
  slot_loop-CanUnwind address storage [] x there w = (x, refl, w)
  slot_loop-CanUnwind address storage (key ∷ rest) x there w =
      elim (Option-cases (storage.committed key)) [
        | inl vacant ↦
            let (y, e, w') = slot_loop-CanUnwind address storage rest x there w in
            (y, rw vacant e, w')
        | inr (c, found) ↦
            let w₁ =
              update_storage-CanUnwind m n x address key c.initial c.original
                (h.slots address key storage c there found) w in
            let (y, e, w') = slot_loop-CanUnwind address storage rest _ there w₁ in
            (y, rw found e, w')
      ]

  write_storage-CanUnwind :
      (address : Address) (keys : List ℕ) (storage : Option Storage) (object : Option Object)
      (x : InMemoryState)
      → s.storage address ≡ storage
      → CanUnwind m n x
      → (y : InMemoryState) × (write_storage in_memory s address keys storage object x ≡ ok y)
        × CanUnwind m n y
  write_storage-CanUnwind address keys none object x there w = (x, refl, w)
  write_storage-CanUnwind address keys (some st) none x there w = (x, refl, w)
  write_storage-CanUnwind address keys (some st) (some o) x there w =
      elim (Option-cases o.current) [
        | inl dead ↦ (x, rw dead, w)
        | inr (account, alive) ↦
            let (y, e, w') = slot_loop-CanUnwind address st keys x there w in (y, rw alive e, w')
      ]

  storage_loop-CanUnwind :
      (keys : Address → List ℕ) (order : List Address) (x : InMemoryState)
      → CanUnwind m n x
      → (y : InMemoryState) × (storage_loop in_memory s keys order x ≡ ok y) × CanUnwind m n y
  unfolding storage_loop
  storage_loop-CanUnwind keys [] x w = (x, refl, w)
  storage_loop-CanUnwind keys (address ∷ rest) x w =
      let (y, e, w') =
        write_storage-CanUnwind address (keys address) (s.storage address) (s.objects address) x
          refl w in
      let (z, e', w'') = storage_loop-CanUnwind keys rest y w' in (z, rw e e', w'')

  object_loop-CanUnwind :
      (order : List Address) (x : InMemoryState)
      → CanUnwind m n x
      → CanUnwind m n (object_loop in_memory s order x)
  unfolding object_loop
  object_loop-CanUnwind [] x w = w
  object_loop-CanUnwind (address ∷ rest) x w = elim (Option-cases (s.objects address)) [
    | inl vacant ↦ rw vacant (object_loop-CanUnwind rest x w)
    | inr (o, there) ↦ rw there (
        object_loop-CanUnwind rest _ (
          update_account-CanUnwind m n x address o.initial o.current (h.accounts address o there)
            w))
  ]

  update_code-CanUnwind :
      (x : InMemoryState) (hash : ℕ) (code : List ℕ)
      → CanUnwind m n x
      → CanUnwind m n (update_code hash code x)
  unfolding update_code
  update_code-CanUnwind x hash code w = record {
    number = w.number;
    accounts = w.accounts;
    slots = w.slots;
  }

  code_loop-CanUnwind :
      (order : List ℕ) (x : InMemoryState)
      → CanUnwind m n x
      → (y : InMemoryState) × (code_loop in_memory s order x ≡ ok y) × CanUnwind m n y
  unfolding code_loop
  code_loop-CanUnwind [] x w = (x, refl, w)
  code_loop-CanUnwind (hash ∷ rest) x w = elim (Option-cases (s.new_code hash)) [
    | inl vacant ↦ let (y, e, w') = code_loop-CanUnwind rest x w in (y, rw vacant e, w')
    | inr (code, there) ↦
        let (y, e, w') =
          code_loop-CanUnwind rest (update_code hash code x)
            (update_code-CanUnwind x hash code w) in
        (y, rw there e, w')
  ]

-- A block whose number was not written before: whatever the orders of the maps, writing the block
-- state to the database in memory succeeds, and unwinding the block afterwards gives back every
-- account and every storage value, if the initial values in the block state were the database's.
pub unwind_state_changes-write_to_db :
    (m : InMemoryState) (s : IntraBlockState) (orders : Orders) (n : ℕ)
    → IsFresh n m
    → HasInitials s m
    → (x : InMemoryState) × (write_to_db in_memory s orders n m ≡ ok x)
      × ((a : Address) → read_account (unwind_state_changes n x) a ≡ read_account m a)
      × ((a : Address) (key : ℕ)
          → read_storage (unwind_state_changes n x) a key ≡ read_storage m a key)
unfolding write_to_db begin_block unwind_state_changes read_account read_storage
unwind_state_changes-write_to_db m s orders n fresh h =
    let begun : CanUnwind m n (record m { block_number = n }) = record {
      number = refl;
      accounts = λ a. let none_yet = fresh.accounts a in rw none_yet;
      slots = λ a key. let none_yet = fresh.slots a key in rw none_yet;
    } in
    let (x₁, e₁, (w₁, _)) =
      erase_loop-Erased m s n orders.incarnations (record m { block_number = n })
        (begun, λ a key v e. fresh.slots a key) in
    let (x₂, e₂, w₂) = storage_loop-CanUnwind m s n h orders.committed orders.storage x₁ w₁ in
    let w₃ = object_loop-CanUnwind m s n h orders.objects x₂ w₂ in
    let (x₄, e₄, w₄) = code_loop-CanUnwind m s n h orders.new_code _ w₃ in
    (x₄, rw (e₁, e₂) e₄, λ a. ap ok (w₄.accounts a), λ a key. ap ok (w₄.slots a key))
