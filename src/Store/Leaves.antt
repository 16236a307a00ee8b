-- ===== src/Store/Leaves.antt =====
-- What the loops over the storage in `write_to_db` leave in a slot.
use martinez.Base.{
  ℕ, Bool, true, false, Option, none, some, List, [], ◌∷◌, ◌≡◌, refl, sym, ap, subst, ◌∙◌, ◌==◌,
  ==-self, if◌then◌else◌, ltb, Result, ok, ◌>>=◌, inl, inr, Bool-cases, Option-cases, ==_iff,
}
use martinez.State.Types.{Address, Object, Storage, CommittedValue, IntraBlockState}
use martinez.Store.Types.{InMemoryState}
use martinez.Store.Updates.{erase_storage, update_storage}
use martinez.Store.Write.{
  in_memory, erase_if, erase_loop, write_committed, slot_loop, write_storage, storage_loop,
}
use martinez.Store.Loops.{listed, is_erased, written_slot, committed_of, settled}

-- A write of storage that succeeds, keeps the accounts, and leaves `v` in a slot.
pub record Leaves (x : InMemoryState) (r : Result InMemoryState) (a : Address) (key : ℕ)
    (v : Option ℕ) : Type 0 where
  pub result : InMemoryState
  pub succeeds : r ≡ ok result
  pub accounts : result.accounts ≡ x.accounts
  pub slot : result.storage a key ≡ v

-- One write, and then a loop.
then_Leaves :
    (x : InMemoryState) (r : Result InMemoryState) (f : InMemoryState → Result InMemoryState)
    (a : Address) (key : ℕ) (v : Option ℕ) (g : Option ℕ → Option ℕ)
    → Leaves x r a key v
    → ((y : InMemoryState) → Leaves y (f y) a key (g (y.storage a key)))
    → Leaves x (r >>= f) a key (g v)
then_Leaves x r f a key v g one rest =
    let two = rest one.result in
    record {
      result = two.result;
      succeeds = rw one.succeeds two.succeeds;
      accounts = two.accounts ∙ one.accounts;
      slot = two.slot ∙ ap g one.slot;
    }

same_slot : (x : InMemoryState) (a : Address) (key : ℕ) → Leaves x (ok x) a key (x.storage a key)
same_slot x a key = record { result = x; succeeds = refl; accounts = refl; slot = refl }

-- One write at `b`, seen at `a`.
at_address :
    (x : InMemoryState) (f : Address → Result InMemoryState) (a b : Address) (key : ℕ)
    (v w : Option ℕ)
    → Leaves x (f a) a key v
    → ((b == a) ≡ false → Leaves x (f b) a key w)
    → Leaves x (f b) a key (if b == a then v else w)
at_address x f a b key v w here other = elim (Bool-cases (b == a)) [
  | inl same ↦ rw same (subst (λ c. Leaves x (f c) a key v) (sym ((==_iff b a).0 same)) here)
  | inr differs ↦ rw differs (other differs)
]

module _ (s : IntraBlockState) (a : Address) (key : ℕ) where
  abbrev pub erased : Option ℕ → Option ℕ → Option ℕ
  erased i v = if is_erased i then none else v

  erase_here :
      (i : Option ℕ) (x : InMemoryState)
      → Leaves x (erase_if in_memory s a i x) a key (erased i (x.storage a key))
  unfolding erase_storage
  erase_here none x = same_slot x a key
  erase_here (some k) x = elim (Bool-cases (ltb 0 k)) [
    | inl above ↦ rw above (record {
      result = erase_storage a x;
      succeeds = refl;
      accounts = refl;
      slot = rw ==-self refl;
    })
    | inr zero_count ↦ rw zero_count (same_slot x a key)
  ]

  erase_other :
      (b : Address) (i : Option ℕ) (x : InMemoryState)
      → (b == a) ≡ false
      → Leaves x (erase_if in_memory s b i x) a key (x.storage a key)
  unfolding erase_storage
  erase_other b none x other = same_slot x a key
  erase_other b (some k) x other = elim (Bool-cases (ltb 0 k)) [
    | inl above ↦ rw above (record {
      result = erase_storage b x;
      succeeds = refl;
      accounts = refl;
      slot = rw other refl;
    })
    | inr zero_count ↦ rw zero_count (same_slot x a key)
  ]

  erased_twice : (i v : Option ℕ) → erased i (erased i v) ≡ erased i v
  erased_twice i v = elim (Bool-cases (is_erased i)) [
    | inl yes_erased ↦ rw yes_erased refl
    | inr kept ↦ rw kept refl
  ]

  pub erase_loop-Leaves :
      (order : List Address) (x : InMemoryState)
      → Leaves x
          (erase_loop in_memory s order x)
          a
          key
          (if listed a order then erased (s.incarnations a) (x.storage a key) else x.storage a key)
  unfolding erase_loop
  erase_loop-Leaves [] x = same_slot x a key
  erase_loop-Leaves (b ∷ rest) x =
      subst (Leaves x (erase_loop in_memory s (b ∷ rest) x) a key)
        (settled (erased (s.incarnations a)) (x.storage a key) (b == a) (listed a rest)
          (erased_twice (s.incarnations a) (x.storage a key)))
        (then_Leaves x _ _ a key _ (λ v. if listed a rest then erased (s.incarnations a) v else v)
          (at_address x (λ c. erase_if in_memory s c (s.incarnations c) x) a b key _ _
            (erase_here (s.incarnations a) x) (erase_other b (s.incarnations b) x))
          (erase_loop-Leaves rest))

  write_here :
      (k : ℕ) (c : Option CommittedValue) (x : InMemoryState)
      → Leaves x
          (write_committed in_memory s a k c x)
          a
          key
          (if k == key then written_slot c (x.storage a key) else x.storage a key)
  unfolding update_storage
  write_here k none x = elim (Bool-cases (k == key)) [
    | inl same ↦ rw same (same_slot x a key)
    | inr other ↦ rw other (same_slot x a key)
  ]
  write_here k (some c) x = record {
    result = update_storage a k c.initial c.original x;
    succeeds = refl;
    accounts = refl;
    slot = rw ==-self refl;
  }

  write_other :
      (b : Address) (k : ℕ) (c : Option CommittedValue) (x : InMemoryState)
      → (b == a) ≡ false
      → Leaves x (write_committed in_memory s b k c x) a key (x.storage a key)
  unfolding update_storage
  write_other b k none x other = same_slot x a key
  write_other b k (some c) x other = record {
    result = update_storage b k c.initial c.original x;
    succeeds = refl;
    accounts = refl;
    slot = rw other refl;
  }

  slot_loop_here :
      (storage : Storage) (keys : List ℕ) (x : InMemoryState)
      → Leaves x (slot_loop in_memory s a storage keys x) a key (
          if listed key keys
          then written_slot (storage.committed key) (x.storage a key)
          else x.storage a key)
  unfolding slot_loop
  slot_loop_here storage [] x = same_slot x a key
  slot_loop_here storage (k ∷ rest) x =
      subst (Leaves x (slot_loop in_memory s a storage (k ∷ rest) x) a key)
        (settled (written_slot (storage.committed key)) (x.storage a key) (k == key)
          (listed key rest) (twice (storage.committed key)))
        (then_Leaves x _ _ a key _
          (λ v. if listed key rest then written_slot (storage.committed key) v else v)
          (subst (Leaves x (write_committed in_memory s a k (storage.committed k) x) a key)
            same_entry (write_here k (storage.committed k) x))
          (slot_loop_here storage rest))
    where
      twice :
          (c : Option CommittedValue)
          → written_slot c (written_slot c (x.storage a key)) ≡ written_slot c (x.storage a key)
      twice none = refl
      twice (some c) = refl

      same_entry :
          (if k == key
            then written_slot (storage.committed k) (x.storage a key)
            else x.storage a key)
          ≡ (if k == key
              then written_slot (storage.committed key) (x.storage a key)
              else x.storage a key)
      same_entry = elim (Bool-cases (k == key)) [
        | inl same ↦
            rw same (
              ap (λ j. written_slot (storage.committed j) (x.storage a key))
                ((==_iff k key).0 same))
        | inr other ↦ rw other refl
      ]

  slot_loop_other :
      (b : Address) (storage : Storage) (keys : List ℕ) (x : InMemoryState)
      → (b == a) ≡ false
      → Leaves x (slot_loop in_memory s b storage keys x) a key (x.storage a key)
  unfolding slot_loop
  slot_loop_other b storage [] x other = same_slot x a key
  slot_loop_other b storage (k ∷ rest) x other =
      then_Leaves x _ _ a key _ (λ v. v) (write_other b k (storage.committed k) x other)
        (λ y. slot_loop_other b storage rest y other)

  abbrev pub stored : List ℕ → Option Storage → Option Object → Option ℕ → Option ℕ
  stored keys storage object v =
      if listed key keys then written_slot (committed_of storage object key) v else v

  unchanged : (keys : List ℕ) (v : Option ℕ) → v ≡ (if listed key keys then v else v)
  unchanged keys v = elim (Bool-cases (listed key keys)) [ inl e ↦ rw e refl | inr e ↦ rw e refl ]

  storage_here :
      (keys : List ℕ) (storage : Option Storage) (o : Option Object) (x : InMemoryState)
      → Leaves x
          (write_storage in_memory s a keys storage o x)
          a
          key
          (stored keys storage o (x.storage a key))
  storage_here keys none o x = subst (Leaves x (ok x) a key) (unchanged keys _) (same_slot x a key)
  storage_here keys (some st) none x =
      subst (Leaves x (ok x) a key) (unchanged keys _) (same_slot x a key)
  storage_here keys (some st) (some o) x = elim (Option-cases o.current) [
    | inl dead ↦ rw dead (subst (Leaves x (ok x) a key) (unchanged keys _) (same_slot x a key))
    | inr (account, alive) ↦ rw alive (slot_loop_here st keys x)
  ]

  storage_other :
      (b : Address) (keys : List ℕ) (storage : Option Storage) (o : Option Object)
      (x : InMemoryState)
      → (b == a) ≡ false
      → Leaves x (write_storage in_memory s b keys storage o x) a key (x.storage a key)
  storage_other b keys none o x other = same_slot x a key
  storage_other b keys (some st) none x other = same_slot x a key
  storage_other b keys (some st) (some o) x other = elim (Option-cases o.current) [
    | inl dead ↦ rw dead (same_slot x a key)
    | inr (account, alive) ↦ rw alive (slot_loop_other b st keys x other)
  ]

  pub storage_loop-Leaves :
      (keys : Address → List ℕ) (order : List Address) (x : InMemoryState)
      → Leaves x (storage_loop in_memory s keys order x) a key (
          if listed a order
          then stored (keys a) (s.storage a) (s.objects a) (x.storage a key)
          else x.storage a key)
  unfolding storage_loop
  storage_loop-Leaves keys [] x = same_slot x a key
  storage_loop-Leaves keys (b ∷ rest) x =
      subst (Leaves x (storage_loop in_memory s keys (b ∷ rest) x) a key)
        (settled (stored (keys a) (s.storage a) (s.objects a)) (x.storage a key) (b == a)
          (listed a rest)
          (twice (committed_of (s.storage a) (s.objects a) key) (listed key (keys a))))
        (then_Leaves x _ _ a key _
          (λ v. if listed a rest then stored (keys a) (s.storage a) (s.objects a) v else v)
          (at_address x (λ c. write_storage in_memory s c (keys c) (s.storage c) (s.objects c) x) a
            b key _ _ (storage_here (keys a) (s.storage a) (s.objects a) x)
            (storage_other b (keys b) (s.storage b) (s.objects b) x))
          (storage_loop-Leaves keys rest))
    where
      twice :
          (c : Option CommittedValue) (d : Bool)
          → (if d
              then written_slot c (if d then written_slot c (x.storage a key) else x.storage a key)
              else (if d then written_slot c (x.storage a key) else x.storage a key))
            ≡ (if d then written_slot c (x.storage a key) else x.storage a key)
      twice none true = refl
      twice (some c) true = refl
      twice c false = refl
