-- ===== src/State/Undo/Slots.antt =====
-- Undoing the reads of storage: what they cache.
use martinez.Base.{
  ℕ, Bool, true, false, not, ◌||◌, Option, none, some, ◌≡◌, refl, sym, subst, ◌∙◌, inl, inr, ◌==◌,
  ==-self, at_key, Result, ok, insert, >>=-eq-ok, Bool-cases, ok_parts, is_some,
}
use martinez.State.Types.{Address, Object, Storage, CommittedValue, Db, IntraBlockState}
use martinez.State.Objects.{get_object}
use martinez.State.Accounts.{exists, object_exists}
use martinez.State.Slots.{entry, with_entry, cached, read_slot, read_current, get_storage}
use martinez.State.Extends.{Extends, Extends-refl, Extends-trans, slot, slot_value}
use martinez.State.Undo.{Undoes, Undoes-cached}
use martinez.State.Undo.Objects.{Found, get_object-Found, Found-Undoes}

pub slot-with_entry_ne :
    (db : Db) (s : IntraBlockState) (a : Address) (st : Storage) (c : Address) (j : ℕ) (b : Bool)
    → (a == c) ≡ false
    → slot db (with_entry a st s) c j b ≡ slot db s c j b
unfolding slot
slot-with_entry_ne db s a st c j b other = rw other

-- Another storage with the same slots is an extension.
Extends-with_entry :
    (db : Db) (s x : IntraBlockState) (a : Address) (st : Storage)
    → Extends db s x
    → ((key : ℕ) (b : Bool) → slot db (with_entry a st x) a key b ≡ slot db s a key b)
    → Extends db s (with_entry a st x)
Extends-with_entry db s x a st e h = record {
  objects = e.objects;
  slots =
      at_key _ a h (λ c other key b. slot-with_entry_ne db x a st c key b other ∙ e.slots c key b);
  incarnations = e.incarnations;
  existing_code = e.existing_code;
  new_code = e.new_code;
  self_destructs = e.self_destructs;
  touched = e.touched;
  ripemd = e.ripemd;
  addresses = e.addresses;
  keys = e.keys;
}

-- What a successful read leaves: at most caches; and for an account that exists, the slot's value.
pub record Read (db : Db) (a : Address) (key : ℕ) (b : Bool) (s : IntraBlockState) (v : ℕ)
    (t : IntraBlockState) : Type 0 where
  pub extends : Extends db s t
  pub journal : t.journal ≡ s.journal
  pub logs : t.logs ≡ s.logs
  pub reads : slot db s a key b ≡ ok v

default_entry :
    (db : Db) (s : IntraBlockState) (a : Address) → Extends db s (with_entry a (entry a s) s)
unfolding slot
default_entry db s a =
    Extends-with_entry db s s a (entry a s) (Extends-refl db s) (λ key b. rw ==-self)

-- A value that was read from the database is the value from then on.
committed_slot :
    (b : Bool) (current : Option ℕ) (committed : Option CommittedValue) (initial : Result Bool)
    (destroyed : Bool) (read : Result ℕ) (val : ℕ) (c : Bool)
    → cached c current committed ≡ none
    → slot_value none initial destroyed read ≡ ok val
    → slot_value
        (cached b current (some (record { initial = val; original = val })))
        initial
        destroyed
        read
      ≡ slot_value (cached b current committed) initial destroyed read
committed_slot b (some w) (some x) i d r val true h k = cc
committed_slot b (some w) (some x) i d r val false h k = cc
committed_slot b none (some x) i d r val true h k = cc
committed_slot b none (some x) i d r val false h k = cc
committed_slot false (some w) none i d r val c h k = refl
committed_slot true (some w) none i d r val c h k = sym k
committed_slot false none none i d r val c h k = sym k
committed_slot true none none i d r val c h k = sym k

abbrev fetched : Address → ℕ → ℕ → IntraBlockState → IntraBlockState
fetched a key val s =
    with_entry a
      (record (entry a s) {
        committed = insert key (record { initial = val; original = val }) (entry a s).committed;
      })
      s

fetched-Extends :
    (db : Db) (s : IntraBlockState) (a : Address) (key : ℕ) (b : Bool) (val : ℕ)
    → cached b ((entry a s).current key) ((entry a s).committed key) ≡ none
    → slot db s a key b ≡ ok val
    → Extends db s (fetched a key val s)
unfolding slot
fetched-Extends db s a key b val h k = Extends-with_entry db s s a _ (Extends-refl db s) (
    at_key _ key (λ c. rw (==-self, ==-self) (committed_slot c _ _ _ _ _ val b h (rw h at k)))
      (λ j other c. rw (==-self, other)))

module _ (db : Db) (a : Address) (key : ℕ) (b : Bool) where
  abbrev slot_cache : IntraBlockState → Option ℕ
  slot_cache s = cached b ((entry a s).current key) ((entry a s).committed key)

  Read-cached :
      (s : IntraBlockState) (v : ℕ)
      → slot_cache s ≡ some v
      → Read db a key b s v (with_entry a (entry a s) s)
  unfolding slot
  Read-cached s v h = record {
    extends = default_entry db s a;
    journal = refl;
    logs = refl;
    reads = rw h;
  }

  -- The slot of an account that was not there at the start of the block is empty.
  Read-vacant :
      (s : IntraBlockState) (o : Object)
      → slot_cache s ≡ none
      → s.objects a ≡ some o
      → (not (is_some o.initial) || is_some (s.incarnations a)) ≡ true
      → Read db a key b s 0 (with_entry a (entry a s) s)
  unfolding slot
  Read-vacant s o h there vacant = record {
    extends = default_entry db s a;
    journal = refl;
    logs = refl;
    reads = rw (h, there, vacant);
  }

  Read-database :
      (s : IntraBlockState) (o : Object) (val : ℕ)
      → slot_cache s ≡ none
      → s.objects a ≡ some o
      → (not (is_some o.initial) || is_some (s.incarnations a)) ≡ false
      → db.read_storage a key ≡ ok val
      → Read db a key b s val (fetched a key val (with_entry a (entry a s) s))
  unfolding slot
  Read-database s o val h there vacant read = record {
    extends =
        Extends-trans db s s₀ _ (default_entry db s a)
          (fetched-Extends db s₀ a key b val (rw ==-self h) (rw (==-self, h, there, vacant) read));
    journal = refl;
    logs = refl;
    reads = rw (h, there, vacant) read;
  }
    where
      s₀ : IntraBlockState
      s₀ = with_entry a (entry a s) s

  read_slot-Read :
      (s t : IntraBlockState) (o : Object) (q : Option ℕ) (unread : Bool) (v : ℕ)
      → s.objects a ≡ some o
      → slot_cache s ≡ q
      → (not (is_some o.initial) || is_some (s.incarnations a)) ≡ unread
      → read_slot db a key q unread (with_entry a (entry a s) s) ≡ ok (v, t)
      → Read db a key b s v t
  read_slot-Read s t o (some w) unread v there h u e =
      let (p, q) = ok_parts e in
      subst (λ n. Read db a key b s n t) p (subst (Read db a key b s w) q (Read-cached s w h))
  read_slot-Read s t o none true v there h u e =
      let (p, q) = ok_parts e in
      subst (λ n. Read db a key b s n t) p
        (subst (Read db a key b s 0) q (Read-vacant s o h there u))
  read_slot-Read s t o none false v there h u e =
      let (val, read, e') = >>=-eq-ok (db.read_storage a key) _ e in
      let (p, q) = ok_parts e' in
      subst (λ n. Read db a key b s n t) p
        (subst (Read db a key b s val) q (Read-database s o val h there u read))

  read_current-Read :
      (s t : IntraBlockState) (o : Option Object) (v : ℕ)
      → s.objects a ≡ o
      → object_exists o ≡ true
      → read_current db a key b o s ≡ ok (v, t)
      → Read db a key b s v t
  read_current-Read s t none v there alive e = cc
  read_current-Read s t (some o) v there alive e =
      read_slot-Read s t o _ _ v there refl refl (rw alive at e)

  Read-Found :
      (s s' t : IntraBlockState) (o : Option Object) (v : ℕ)
      → Found db a s o s'
      → Read db a key b s' v t
      → Read db a key b s v t
  Read-Found s s' t o v f r = record {
    extends = Extends-trans db s s' t f.extends r.extends;
    journal = r.journal ∙ f.journal;
    logs = r.logs ∙ f.logs;
    reads = sym (f.extends.slots a key b) ∙ r.reads;
  }

  -- A read of an account that exists gives the value of the slot.
  pub get_storage-Read :
      (s t u : IntraBlockState) (v : ℕ)
      → exists db a s ≡ ok (true, u)
      → get_storage db a key b s ≡ ok (v, t)
      → Read db a key b s v t
  unfolding get_storage exists
  get_storage-Read s t u v alive h =
      let ((o, s'), found, e) = >>=-eq-ok (get_object db a s) _ h in
      let f = get_object-Found db a s o s' found in
      Read-Found s s' t o v f
        (read_current-Read s' t o v f.there (ok_parts (rw found at alive)).0 e)

  pub Read-Undoes : (s t : IntraBlockState) (v : ℕ) → Read db a key b s v t → Undoes db s t
  Read-Undoes s t v r = Undoes-cached db s t r.extends r.journal r.logs

  -- A read is undone by nothing, also where the account does not exist.
  pub get_storage-Undoes :
      (s t : IntraBlockState) (v : ℕ) → get_storage db a key b s ≡ ok (v, t) → Undoes db s t
  unfolding get_storage
  get_storage-Undoes s t v h =
      let ((o, s'), found, e) = >>=-eq-ok (get_object db a s) _ h in
      let f = get_object-Found db a s o s' found in
      elim (Bool-cases (object_exists o)) [
        | inl alive ↦
            Read-Undoes s t v (Read-Found s s' t o v f (read_current-Read s' t o v f.there alive e))
        | inr dead ↦
            subst (Undoes db s) (ok_parts (dead_read o dead e)).1 (Found-Undoes db a s s' o f)
      ]
    where
      dead_read :
          (o : Option Object) {s' : IntraBlockState}
          → object_exists o ≡ false
          → read_current db a key b o s' ≡ ok (v, t)
          → ◌≡◌ {A = Result (ℕ × IntraBlockState)} (ok (0, s')) (ok (v, t))
      dead_read none d e = e
      dead_read (some o) d e = rw d at e
