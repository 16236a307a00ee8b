-- ===== src/State/Undo/Writes.antt =====
-- Undoing the writes of storage.
use martinez.Base.{
  ℕ, Bool, true, false, Option, none, some, ◌≡◌, refl, sym, subst, ◌∙◌, inl, inr, ◌==◌, ==-self,
  at_key, ok, insert, >>=-eq-ok, Bool-cases, ok-injective,
}
use martinez.State.Types.{Address, CommittedValue, storage_change, Db, IntraBlockState}
use martinez.State.Accounts.{exists}
use martinez.State.Slots.{
  entry, with_entry, cached, get_storage, get_current_storage, write_slot, set_storage,
}
use martinez.State.Journal.{revert}
use martinez.State.Extends.{Extends, slot}
use martinez.State.Undo.{Undoes, Undoes-one, Undoes-trans, Extends-journal_left}
use martinez.State.Undo.Slots.{slot-with_entry_ne, get_storage-Read, Read-Undoes}

-- A key's current value written.
abbrev pub with_current : Address → ℕ → ℕ → IntraBlockState → IntraBlockState
with_current a key v s =
    with_entry a (record (entry a s) { current = insert key v (entry a s).current }) s

pub slot-with_current_self :
    (db : Db) (s : IntraBlockState) (a : Address) (key v : ℕ)
    → slot db (with_current a key v s) a key false ≡ ok v
unfolding slot
slot-with_current_self db s a key v = rw (==-self, ==-self)

cached-original :
    (c d : Option ℕ) (committed : Option CommittedValue)
    → cached true c committed ≡ cached true d committed
cached-original c d none = refl
cached-original c d (some committed) = refl

-- The original value does not depend on the current ones.
slot-with_current_original :
    (db : Db) (s : IntraBlockState) (a : Address) (key v : ℕ) (j : ℕ)
    → slot db (with_current a key v s) a j true ≡ slot db s a j true
unfolding slot
slot-with_current_original db s a key v j =
    rw (==-self, cached-original (insert key v (entry a s).current j) ((entry a s).current j) _)

slot-with_current_ne :
    (db : Db) (s : IntraBlockState) (a : Address) (key v j : ℕ) (b : Bool)
    → (key == j) ≡ false
    → slot db (with_current a key v s) a j b ≡ slot db s a j b
unfolding slot
slot-with_current_ne db s a key v j b other = rw (==-self, other)

-- A write is undone by its entry, if the slot held what the entry says.
write_slot-Undoes :
    (db : Db) (a : Address) (key value previous : ℕ) (s : IntraBlockState)
    → slot db s a key false ≡ ok previous
    → Undoes db s (write_slot a key value previous s)
unfolding revert
write_slot-Undoes db a key value previous s held =
    Undoes-one db s _ (storage_change a key previous) refl refl (λ b. refl)
      λ x e.
        let e' = Extends-journal_left db (with_current a key value s) x _ e in
        (with_current a key previous x, refl, back x e', refl, refl)
  where
    original :
        (x : IntraBlockState)
        → Extends db (with_current a key value s) x
        → (b : Bool) → slot db (with_current a key previous x) a key b ≡ slot db s a key b
    original x e false = slot-with_current_self db x a key previous ∙ sym held
    original x e true =
        slot-with_current_original db x a key previous key
        ∙ e.slots a key true
        ∙ slot-with_current_original db s a key value key

    others :
        (x : IntraBlockState)
        → Extends db (with_current a key value s) x
        → (c : Address) (j : ℕ) (b : Bool)
        → slot db (with_current a key previous x) c j b ≡ slot db s c j b
    others x e =
        at_key _ a
          (at_key _ key (original x e) (λ j ne b.
            slot-with_current_ne db x a key previous j b ne
            ∙ e.slots a j b
            ∙ slot-with_current_ne db s a key value j b ne))
          (λ c ne j b.
            slot-with_entry_ne db x a _ c j b ne
            ∙ e.slots c j b
            ∙ slot-with_entry_ne db s a _ c j b ne)

    back :
        (x : IntraBlockState)
        → Extends db (with_current a key value s) x
        → Extends db s (with_current a key previous x)
    back x e = record {
      objects = e.objects;
      slots = others x e;
      incarnations = e.incarnations;
      existing_code = e.existing_code;
      new_code = e.new_code;
      self_destructs = e.self_destructs;
      touched = e.touched;
      ripemd = e.ripemd;
      addresses = e.addresses;
      keys = e.keys;
    }

-- `set_storage` on an account that exists.
pub set_storage-Undoes :
    (db : Db) (a : Address) (key value : ℕ) (s t u : IntraBlockState)
    → exists db a s ≡ ok (true, u)
    → set_storage db a key value s ≡ ok t
    → Undoes db s t
unfolding set_storage get_current_storage
set_storage-Undoes db a key value s t u alive h =
    let ((previous, s'), read, e) = >>=-eq-ok (get_storage db a key false s) _ h in
    let r = get_storage-Read db a key false s s' u previous alive read in
    let cached_read = Read-Undoes db a key false s s' previous r in
    elim (Bool-cases (previous == value)) [
      | inl same ↦ subst (Undoes db s) (ok-injective (rw same at e)) cached_read
      | inr other ↦ subst (Undoes db s) (ok-injective (rw other at e)) (
          Undoes-trans db s s' _ cached_read
            (write_slot-Undoes db a key value previous s' (r.extends.slots a key false ∙ r.reads)))
    ]
