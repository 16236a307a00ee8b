-- ===== src/State/Undo/Accounts.antt =====
-- Undoing the operations that change an account or its code.
use martinez.Base.{
  ℕ, false, Option, none, some, ◌≡◌, refl, sym, subst, inl, inr, ◌⊎◌, ◌==◌, ==-self, at_key, ok,
  update, unwrap, unwrap_or, >>=-eq-ok, Bool-cases, ok_parts, ok-injective, unwrap-ok,
}
use martinez.State.Types.{
  Address, Bytes, empty_hash, Account, Object, update_object, update_balance, selfdestruct, Db,
  IntraBlockState,
}
use martinez.State.Objects.{get_object, get_or_create_object}
use martinez.State.Accounts.{
  record_selfdestruct, change_balance, change_account, set_code, keep_code, get_code, load_code,
  code_of, current_or,
}
use martinez.State.Journal.{revert}
use martinez.State.Extends.{Extends-others, Extends-refl, Extends-code}
use martinez.State.Undo.{Undoes, Undoes-cached, Undoes-one, Undoes-trans}
use martinez.State.Undo.Objects.{with_object, get_object-Found, Found-Undoes}
use martinez.State.Undo.Ensure.{Undoes-object}
use martinez.State.Undo.Touch.{get_or_create_object-Undoes, touch-Undoes}

abbrev with_balance : Object → Account → ℕ → Object
with_balance object account balance = record object {
  current = some (record account { balance = balance });
}

-- The old balance goes back into the account that is there.
revert_balance_back :
    (a : Address) (o : Object) (account : Account) (balance : ℕ) (x : IntraBlockState)
    → o.current ≡ some account
    → x.objects a ≡ some (with_balance o account balance)
    → revert (update_balance a account.balance) x ≡ ok (with_object a (some o) x)
unfolding revert
revert_balance_back a o account balance x alive h =
    rw h (λ i. ok (with_object a (some (record o { current = sym alive i })) x))

pub change_balance-Undoes :
    (db : Db) (a : Address) (f : ℕ → ℕ) (s t : IntraBlockState)
    → change_balance db a f s ≡ ok t
    → Undoes db s t
unfolding change_balance
change_balance-Undoes db a f s t h =
    let ((o, s'), made, e) = >>=-eq-ok (get_or_create_object db a s) _ h in
    let (account, current, e') = >>=-eq-ok (unwrap o.current) _ e in
    let alive = unwrap-ok o.current current in
    let (u, there) = get_or_create_object-Undoes db a s s' o made in
    let changed =
      Undoes-object db a s' o (with_balance o account (f account.balance))
        (update_balance a account.balance) there refl
        (λ x. revert_balance_back a o account (f account.balance) x alive) in
    subst (Undoes db s) (ok-injective e')
      (Undoes-trans db s s' _ u (Undoes-trans db s' _ _ changed (touch-Undoes db a _)))

pub change_account-Undoes :
    (db : Db) (a : Address) (f : Account → Account) (s t : IntraBlockState)
    → change_account db a f s ≡ ok t
    → Undoes db s t
unfolding change_account revert
change_account-Undoes db a f s t h =
    let ((o, s'), made, e) = >>=-eq-ok (get_or_create_object db a s) _ h in
    let (account, current, e') = >>=-eq-ok (unwrap o.current) _ e in
    let (u, there) = get_or_create_object-Undoes db a s s' o made in
    let changed =
      Undoes-object db a s' o (record o { current = some (f account) }) (update_object a o) there
        refl (λ x h. refl) in
    subst (Undoes db s) (ok-injective e') (Undoes-trans db s s' _ u changed)

keep_code-Undoes :
    (db : Db) (hash : ℕ) (code : Bytes) (s : IntraBlockState) → Undoes db s (keep_code hash code s)
keep_code-Undoes db hash code s =
    Undoes-cached db s _
      (Extends-code db s s.existing_code _ (λ h. inr refl)
        (at_key _ hash (kept (s.new_code hash) refl) (λ h other. inr (rw other))))
      refl refl
  where
    kept :
        (o : Option Bytes)
        → s.new_code hash ≡ o
        → (s.new_code hash ≡ none)
          ⊎ (update s.new_code hash (some (unwrap_or code (s.new_code hash))) hash
              ≡ s.new_code hash)
    kept none e = inl e
    kept (some c) e = inr (rw (==-self, e))

pub set_code-Undoes :
    (db : Db) (a : Address) (code : Bytes) (s t : IntraBlockState)
    → set_code db a code s ≡ ok t
    → Undoes db s t
unfolding set_code
set_code-Undoes db a code s t h =
    let (s', changed, e) = >>=-eq-ok (change_account db a _ s) _ h in
    subst (Undoes db s) (ok-injective e) (
      Undoes-trans db s s' _ (change_account-Undoes db a _ s s' changed)
        (keep_code-Undoes db (db.keccak256 code) code s'))

load_code-Undoes :
    (db : Db) (hash : ℕ) (new existing : Option Bytes) (s t : IntraBlockState) (c : Option Bytes)
    → s.existing_code hash ≡ existing
    → load_code db hash new existing s ≡ ok (c, t)
    → Undoes db s t
load_code-Undoes db hash (some code) existing s t c e h =
    subst (Undoes db s) (ok_parts h).1 (Undoes-cached db s s (Extends-refl db s) refl refl)
load_code-Undoes db hash none (some code) s t c e h =
    subst (Undoes db s) (ok_parts h).1 (Undoes-cached db s s (Extends-refl db s) refl refl)
load_code-Undoes db hash none none s t c e h =
    let (code, r, e') = >>=-eq-ok (db.read_code hash) _ h in
    subst (Undoes db s) (ok_parts e').1 (
      Undoes-cached db s _
        (Extends-code db s _ s.new_code (at_key _ hash (inl e) (λ h other. inr (rw other)))
          (λ h. inr refl))
        refl refl)

code_of-Undoes :
    (db : Db) (hash : Option ℕ) (s t : IntraBlockState) (c : Option Bytes)
    → code_of db hash s ≡ ok (c, t)
    → Undoes db s t
code_of-Undoes db none s t c h =
    subst (Undoes db s) (ok_parts h).1 (Undoes-cached db s s (Extends-refl db s) refl refl)
code_of-Undoes db (some hash) s t c h = elim (Bool-cases (hash == empty_hash)) [
  | inl empty ↦
      subst (Undoes db s) (ok_parts (rw empty at h)).1
        (Undoes-cached db s s (Extends-refl db s) refl refl)
  | inr code ↦ load_code-Undoes db hash _ _ s t c refl (rw code at h)
]

pub get_code-Undoes :
    (db : Db) (a : Address) (s t : IntraBlockState) (c : Option Bytes)
    → get_code db a s ≡ ok (c, t)
    → Undoes db s t
unfolding get_code
get_code-Undoes db a s t c h =
    let ((o, s'), found, e) = >>=-eq-ok (get_object db a s) _ h in
    Undoes-trans db s s' t (Found-Undoes db a s s' o (get_object-Found db a s o s' found))
      (code_of-Undoes db (current_or none (λ account. some account.code_hash) o) s' t c e)

pub record_selfdestruct-Undoes :
    (db : Db) (a : Address) (s : IntraBlockState) → Undoes db s (record_selfdestruct a s)
unfolding record_selfdestruct revert
record_selfdestruct-Undoes db a s = elim (Bool-cases (s.self_destructs a)) [
  | inl old ↦ rw old (Undoes-cached db s s (Extends-refl db s) refl refl)
  | inr fresh ↦ rw fresh (
      Undoes-one db s _ (selfdestruct a) refl refl (λ b. refl)
        λ x e. (
          record x { self_destructs = update x.self_destructs a false },
          refl,
          Extends-others db _ x s.self_destructs (update x.self_destructs a false) _ _ _ _ _ _
              s.journal x.journal e
              (at_key _ a (rw (==-self, fresh))
                (λ b other. rw other (rw other at (e.self_destructs b))))
              e.touched e.ripemd e.addresses e.keys,
          refl,
          refl,
        ))
]
