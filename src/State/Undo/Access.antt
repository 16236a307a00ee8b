-- ===== src/State/Undo/Access.antt =====
-- Undoing the EIP-2929 access sets, and the operations that push no entry.
use martinez.Base.{
  ℕ, Bool, true, false, Option, ◌≡◌, refl, inl, inr, List, [], ◌++◌, ==-self, at_key, update,
  insert, unwrap_or, no_element, Bool-cases,
}
use martinez.State.Types.{Address, Log, account_access, storage_access, Db, IntraBlockState}
use martinez.State.Access.{access_account, access_storage}
use martinez.State.Journal.{revert, revert_loop}
use martinez.State.Extends.{Extends, Extends-others, Extends-refl, slot}
use martinez.State.Undo.{Undoes, Undoes-cached, Undoes-one}

pub access_account-Undoes :
    (db : Db) (a : Address) (s : IntraBlockState) → Undoes db s (access_account a s).1
unfolding access_account revert
access_account-Undoes db a s = elim (Bool-cases (s.accessed_addresses a)) [
  | inl old ↦ rw old (Undoes-cached db s s (Extends-refl db s) refl refl)
  | inr fresh ↦ rw fresh (
      Undoes-one db s _ (account_access a) refl refl (λ b. refl)
        λ x e. (
          record x { accessed_addresses = update x.accessed_addresses a false },
          refl,
          Extends-others db _ x _ _ _ _ s.accessed_addresses (update x.accessed_addresses a false) _
              _ s.journal x.journal e e.self_destructs e.touched e.ripemd
              (at_key _ a (rw (==-self, fresh)) (λ b other. rw other (rw other at (e.addresses b))))
              e.keys,
          refl,
          refl,
        ))
]

-- What the sets answer after a write, at one address and at the others.
abbrev keys_of : (ℕ → Option (ℕ → Bool)) → Address → ℕ → Bool
keys_of keys a = unwrap_or no_element (keys a)

-- A warm key leaves at most an empty entry.
warm_again :
    (s : IntraBlockState) (a : Address) (key : ℕ)
    → keys_of s.accessed_storage_keys a key ≡ true
    → (b : Address) (j : ℕ)
    → keys_of
        (insert a (update (keys_of s.accessed_storage_keys a) key true) s.accessed_storage_keys)
        b
        j
      ≡ keys_of s.accessed_storage_keys b j
warm_again s a key warm =
    at_key _ a (at_key _ key (rw (==-self, ==-self, warm)) (λ j other. rw (==-self, other)))
      (λ b other j. rw other)

pub access_storage-Undoes :
    (db : Db) (a : Address) (key : ℕ) (s : IntraBlockState) → Undoes db s (access_storage a key s).1
unfolding access_storage revert
access_storage-Undoes db a key s = elim (Bool-cases (keys_of s.accessed_storage_keys a key)) [
  | inl old ↦ rw old (
      Undoes-cached db s _
        (Extends-others db s s _ _ _ _ _ _ s.accessed_storage_keys _ _ _ (Extends-refl db s)
          (λ b. refl) (λ b n. refl) (λ h. h) (λ b. refl) (warm_again s a key old))
        refl refl)
  | inr fresh ↦ rw fresh (
      Undoes-one db s _ (storage_access a key) refl refl (λ b. refl)
        λ x e. (
          record x {
            accessed_storage_keys =
                insert a (update (keys_of x.accessed_storage_keys a) key false)
                  x.accessed_storage_keys;
          },
          refl,
          Extends-others db _ x _ _ _ _ _ _ s.accessed_storage_keys _ s.journal x.journal e
              e.self_destructs e.touched e.ripemd e.addresses
              (at_key _ a
                (at_key _ key (rw (==-self, ==-self, fresh))
                  (λ j other. rw (==-self, other) (rw (==-self, other) at (e.keys a j))))
                (λ b other j. rw other (rw other at (e.keys b j)))),
          refl,
          refl,
        ))
]

-- The logs and the refund are no part of what a revert restores entry by entry.
Extends-logs :
    (db : Db) (s x : IntraBlockState) (logs : List Log) (refund : ℕ)
    → Extends db (record s { logs = logs; refund = refund }) x
    → Extends db s x
unfolding slot
Extends-logs db s x logs refund e = record {
  objects = e.objects;
  slots = e.slots;
  incarnations = e.incarnations;
  existing_code = e.existing_code;
  new_code = e.new_code;
  self_destructs = e.self_destructs;
  touched = e.touched;
  ripemd = e.ripemd;
  addresses = e.addresses;
  keys = e.keys;
}

pub Undoes-logs :
    (db : Db) (s : IntraBlockState) (more : List Log) (refund : ℕ)
    → Undoes db s (record s { logs = s.logs ++ more; refund = refund })
unfolding revert_loop
Undoes-logs db s more refund = record {
  pushed = [];
  logged = more;
  journal = refl;
  logs = refl;
  counted = λ c. c;
  undo = λ c x rest e p. record {
    result = x;
    returns = refl;
    extends = Extends-logs db s x _ refund e;
    journal = p;
    logs = refl;
  };
}

pub Extends-logs_right :
    (db : Db) (s x : IntraBlockState) (logs : List Log) (refund : ℕ)
    → Extends db s x
    → Extends db s (record x { logs = logs; refund = refund })
unfolding slot
Extends-logs_right db s x logs refund e = record {
  objects = e.objects;
  slots = e.slots;
  incarnations = e.incarnations;
  existing_code = e.existing_code;
  new_code = e.new_code;
  self_destructs = e.self_destructs;
  touched = e.touched;
  ripemd = e.ripemd;
  addresses = e.addresses;
  keys = e.keys;
}
