-- ===== src/Store/Reads.antt =====
-- What is read from the database after `write_to_db`.
use martinez.Base.{
  ℕ, Bool, true, false, Option, none, some, List, [], ◌∷◌, ◌≡◌, refl, sym, ap, ◌∙◌, if◌then◌else◌,
  Result, ok, unwrap_or, inl, inr, Option-cases, ok-injective,
}
use martinez.State.Types.{Address, Account, Object, Storage, CommittedValue, IntraBlockState}
use martinez.Store.Types.{InMemoryState}
use martinez.Store.Updates.{begin_block, update_code, read_account, read_storage}
use martinez.Store.Write.{Orders, in_memory, object_loop, code_loop, write_to_db}
use martinez.Store.Loops.{
  listed, is_erased, written_account, written_slot, committed_of, object_loop-accounts,
  object_loop-storage,
}
use martinez.Store.Leaves.{Leaves, stored, erase_loop-Leaves, storage_loop-Leaves}

-- Every key of a map stands in the order in which the map is iterated.
pub record Covers (s : IntraBlockState) (orders : Orders) : Type 0 where
  pub incarnations :
      (a : Address) (n : ℕ) → s.incarnations a ≡ some n → listed a orders.incarnations ≡ true
  pub storage :
      (a : Address) (storage : Storage)
      → s.storage a ≡ some storage
      → listed a orders.storage ≡ true
  pub committed :
      (a : Address) (storage : Storage) (key : ℕ) (c : CommittedValue)
      → s.storage a ≡ some storage
      → storage.committed key ≡ some c
      → listed key (orders.committed a) ≡ true
  pub objects : (a : Address) (o : Object) → s.objects a ≡ some o → listed a orders.objects ≡ true

code_loop_keeps :
    (s : IntraBlockState) (order : List ℕ) (x : InMemoryState)
    → (y : InMemoryState) × (code_loop in_memory s order x ≡ ok y)
      × (y.accounts ≡ x.accounts)
      × (y.storage ≡ x.storage)
unfolding code_loop update_code
code_loop_keeps s [] x = (x, refl, refl, refl)
code_loop_keeps s (h ∷ rest) x = elim (Option-cases (s.new_code h)) [
  | inl vacant ↦
      let (y, e, accounts, storage) = code_loop_keeps s rest x in
      (y, rw vacant e, accounts, storage)
  | inr (code, there) ↦
      let (y, e, accounts, storage) = code_loop_keeps s rest (update_code h code x) in
      (y, rw there e, accounts, storage)
]

either : {A : Type 0} (d : Bool) (v : A) → (if d then v else v) ≡ v
either true v = refl
either false v = refl

covered_erased :
    (i : Option ℕ) (d : Bool) (v : Option ℕ)
    → ((n : ℕ) → i ≡ some n → d ≡ true)
    → (if d then (if is_erased i then none else v) else v) ≡ (if is_erased i then none else v)
covered_erased none d v h = either d v
covered_erased (some n) d v h = let always = h n refl in rw always refl

is_committed :
    (st : Storage) (o : Option Object) (key : ℕ) (c : CommittedValue)
    → committed_of (some st) o key ≡ some c
    → st.committed key ≡ some c
is_committed st none key c e = cc
is_committed st (some o) key c e = elim (Option-cases o.current) [
  | inl dead ↦ let bad = rw dead at e in cc
  | inr (account, alive) ↦ rw alive at e
]

chosen :
    (d : Bool) (c : Option CommittedValue) (v : Option ℕ)
    → ((k : CommittedValue) → c ≡ some k → d ≡ true)
    → (if d then written_slot c v else v) ≡ written_slot c v
chosen d none v h = either d v
chosen d (some c) v h = let always = h c refl in rw always refl

module _ (s : IntraBlockState) (orders : Orders) (covers : Covers s orders) where
  covered_slot :
      (a : Address) (key : ℕ) (v : Option ℕ)
      → (if listed a orders.storage
          then stored s a key (orders.committed a) (s.storage a) (s.objects a) v
          else v)
        ≡ written_slot (committed_of (s.storage a) (s.objects a) key) v
  covered_slot a key v = elim (Option-cases (s.storage a)) [
    | inl vacant ↦ rw vacant (same (listed a orders.storage) (listed key (orders.committed a)) v)
    | inr (st, there) ↦
        let all = covers.storage a st there in
        rw (there, all)
          (chosen (listed key (orders.committed a)) (committed_of (some st) (s.objects a) key) v
            (λ k e. covers.committed a st key k there (is_committed st (s.objects a) key k e)))
  ]
    where
      same : (d e : Bool) (v : Option ℕ) → (if d then (if e then v else v) else v) ≡ v
      same true e v = either e v
      same false e v = refl

  covered_account :
      (a : Address) (v : Option Account)
      → (if listed a orders.objects then written_account (s.objects a) v else v)
        ≡ written_account (s.objects a) v
  covered_account a v = elim (Option-cases (s.objects a)) [
    | inl vacant ↦ rw vacant (either _ v)
    | inr (o, there) ↦ let l = covers.objects a o there in rw l refl
  ]

-- The results at all slots are one result.
everywhere :
    (x : InMemoryState) (r : Result InMemoryState) (v : Address → ℕ → Option ℕ)
    → ((a : Address) (key : ℕ) → Leaves x r a key (v a key))
    → (y : InMemoryState) × (r ≡ ok y)
      × (y.accounts ≡ x.accounts)
      × ((a : Address) (key : ℕ) → y.storage a key ≡ v a key)
everywhere x r v h =
    let one = h 0 0 in
    (
      one.result,
      one.succeeds,
      one.accounts,
      λ a key.
          ap (λ (y : InMemoryState). y.storage a key)
            (ok-injective (sym one.succeeds ∙ (h a key).succeeds))
          ∙ (h a key).slot,
    )

-- Whatever the orders in which the maps are iterated, if they cover the maps, writing a block state
-- to the database in memory succeeds. Afterwards every account that the block state has is read as
-- its current account, and the others as before. A slot is read as the committed value, if there is
-- one and the account exists; else as zero, if the storage was wiped, and as before, if not.
pub write_to_db-reads :
    (m : InMemoryState) (s : IntraBlockState) (orders : Orders) (n : ℕ)
    → Covers s orders
    → (x : InMemoryState) × (write_to_db in_memory s orders n m ≡ ok x)
      × ((a : Address) → read_account x a ≡ ok (written_account (s.objects a) (m.accounts a)))
      × ((a : Address) (key : ℕ)
          → read_storage x a key
            ≡ ok (
                unwrap_or 0 (
                  written_slot
                    (committed_of (s.storage a) (s.objects a) key)
                    (if is_erased (s.incarnations a) then none else m.storage a key))))
unfolding write_to_db begin_block read_account read_storage
write_to_db-reads m s orders n covers =
    let (x₁, e₁, accounts₁, storage₁) =
      everywhere (record m { block_number = n }) _ _
        (λ a key. erase_loop-Leaves s a key orders.incarnations (record m { block_number = n })) in
    let (x₂, e₂, accounts₂, storage₂) =
      everywhere x₁ _ _ (λ a key. storage_loop-Leaves s a key orders.committed orders.storage x₁) in
    let x₃ = object_loop in_memory s orders.objects x₂ in
    let (x₄, e₄, accounts₄, storage₄) = code_loop_keeps s orders.new_code x₃ in
    (
      x₄,
      rw (e₁, e₂) e₄,
      λ a. ap ok (
          ap (λ f. f a) accounts₄
          ∙ object_loop-accounts s orders.objects x₂ a
          ∙ covered_account s orders covers a (x₂.accounts a)
          ∙ ap (λ f. written_account (s.objects a) (f a)) (accounts₂ ∙ accounts₁)),
      λ a key.
          ap (λ v. ok (unwrap_or 0 v))
            (ap (λ f. f a key) (storage₄ ∙ object_loop-storage s orders.objects x₂)
              ∙ storage₂ a key
              ∙ covered_slot s orders covers a key (x₁.storage a key)
              ∙ ap (written_slot (committed_of (s.storage a) (s.objects a) key)) (
                  storage₁ a key
                  ∙ covered_erased (s.incarnations a) (listed a orders.incarnations)
                      (m.storage a key) (covers.incarnations a))),
    )
