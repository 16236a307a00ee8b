-- ===== src/State/Undo/Create.antt =====
-- Undoing the creation of a contract.
use martinez.Base.{
  ℕ, zero, suc, ◌+◌, ◌-◌, false, Option, none, some, ◌≡◌, ◌≢◌, refl, subst, ◌∙◌, ◌∷◌, ◌==◌, ==-self,
  at_key, ok, insert, remove, update, unwrap_or, >>=-eq-ok, ok-injective, arith,
}
use martinez.State.Types.{Address, Object, Storage, update_object, incarnation, Db, IntraBlockState}
use martinez.State.Objects.{get_object}
use martinez.State.Accounts.{
  create_contract, increment, replaced, removed_storage, fresh_account, initial_of,
}
use martinez.State.Journal.{revert}
use martinez.State.Extends.{Extends, had_initial-SameObject, IsCounted}
use martinez.State.Undo.{Extends-journal, Undoes, Undoes-two, Undoes-trans}
use martinez.State.Undo.Objects.{slot_congr, Found, Found-here, get_object-Found, Found-Undoes}
use martinez.State.Undo.Ensure.{Undoes-object, Undoes-create}

-- A life ends: one more incarnation, and no storage.
abbrev reborn : Address → IntraBlockState → IntraBlockState
reborn a s =
    let s' = increment a s in
    record s' {
      storage = remove a s'.storage;
      journal = removed_storage a (s.storage a) ∷ incarnation a ∷ s.journal;
    }

abbrev with_life : Address → Option Storage → Option ℕ → IntraBlockState → IntraBlockState
with_life a storage count s = record s {
  storage = update s.storage a storage;
  incarnations = update s.incarnations a count;
}

-- The storage and the count put back make the slots what they were.
Extends-reborn :
    (db : Db) (s x : IntraBlockState) (a : Address)
    → Extends db (reborn a s) x
    → Extends db s (with_life a (s.storage a) (s.incarnations a) x)
Extends-reborn db s x a e = record {
  objects = e.objects;
  slots =
      at_key _ a
        (slot_congr db _ s a (rw ==-self) (rw ==-self) (had_initial-SameObject _ _ _ (e.objects a)))
        (λ b other key original.
          slot_congr db _ x b (rw other) (rw other) refl key original
          ∙ e.slots b key original
          ∙ slot_congr db (reborn a s) s b (rw other) (rw other) refl key original);
  incarnations = at_key _ a (rw ==-self) (λ b other. rw other (rw other at (e.incarnations b)));
  existing_code = e.existing_code;
  new_code = e.new_code;
  self_destructs = e.self_destructs;
  touched = e.touched;
  ripemd = e.ripemd;
  addresses = e.addresses;
  keys = e.keys;
}

-- Storage is put back by either entry, `StorageWipe` or `StorageCreate`.
revert-removed_storage :
    (a : Address) (storage : Option Storage) (x : IntraBlockState)
    → revert (removed_storage a storage) x ≡ ok (record x { storage = update x.storage a storage })
unfolding revert
revert-removed_storage a none x = refl
revert-removed_storage a (some storage) x = refl

-- The count goes back to what it was, and out of the map where it was not there.
revert-incarnation :
    (a : Address) (count : Option ℕ) (x : IntraBlockState)
    → count ≢ some 0
    → x.incarnations a ≡ some (unwrap_or 0 count + 1)
    → revert (incarnation a) x ≡ ok (record x { incarnations = update x.incarnations a count })
unfolding revert
revert-incarnation a none x nz h = rw h
revert-incarnation a (some zero) x nz h = absurd (nz refl)
revert-incarnation a (some (suc n)) x nz h =
    let e : suc n + 1 - 1 ≡ suc n = omega arith in
    let pos : (suc n == 0) ≡ false = ground arith in rw (h, e, pos)

reborn-Undoes : (db : Db) (a : Address) (s : IntraBlockState) → Undoes db s (reborn a s)
reborn-Undoes db a s =
    Undoes-two db s _ (removed_storage a (s.storage a)) (incarnation a) refl refl counted λ c x e.
      let x' : IntraBlockState = record x { storage = update x.storage a (s.storage a) } in
      (
        x',
        revert-removed_storage a (s.storage a) x,
        refl,
        λ j. (
          record x' { incarnations = update x.incarnations a (s.incarnations a); journal = j },
          revert-incarnation a (s.incarnations a) (record x' { journal = j }) (c a)
              (rw ==-self at (e.incarnations a)),
          Extends-journal db s _ j (Extends-reborn db s x a e),
          refl,
          refl,
        ),
      )
  where
    counted : IsCounted s → IsCounted (reborn a s)
    counted c = at_key _ a (rw ==-self (λ z. ground arith)) (λ b other. rw other (c b))

-- Another account under the address, whose entry brings the old object back.
replaced-Undoes :
    (db : Db) (a : Address) (s : IntraBlockState) (prev : Option Object)
    → Found db a s prev s
    → Undoes db s (record s {
      objects =
          insert a
            (record { current = some (fresh_account prev); initial = initial_of prev })
            s.objects;
      journal = replaced a prev ∷ s.journal;
    })
unfolding revert
replaced-Undoes db a s none f = Undoes-create db a s (fresh_account none) f.there (f.absent refl)
replaced-Undoes db a s (some o) f =
    Undoes-object db a s o _ (update_object a o) f.there refl (λ x h. refl)

pub create_contract-Undoes :
    (db : Db) (a : Address) (s t : IntraBlockState) → create_contract db a s ≡ ok t → Undoes db s t
unfolding create_contract
create_contract-Undoes db a s t h =
    let ((prev, s₁), found, e) = >>=-eq-ok (get_object db a s) _ h in
    let f = get_object-Found db a s prev s₁ found in
    subst (Undoes db s) (ok-injective e) (
      Undoes-trans db s s₁ _ (Found-Undoes db a s s₁ prev f) (
        Undoes-trans db s₁ _ _
          (replaced-Undoes db a s₁ prev (Found-here db a s₁ prev f.there f.absent))
          (reborn-Undoes db a _)))
