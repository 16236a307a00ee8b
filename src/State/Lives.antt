-- ===== src/State/Lives.antt =====
-- What the creation and the destruction of an account do, read through the getters.
use martinez.Base.{
  ℕ, Bool, true, false, not, ◌||◌, Option, none, some, ◌≡◌, ◌≢◌, refl, sym, ap, subst, ◌∙◌, List,
  [], ◌∷◌, ◌==◌, ==-self, if◌then◌else◌, Result, ok, err, ◌+◌, Map, insert, remove, unwrap_or, inl,
  inr, is_some, ◌>>=◌, >>=-eq-ok, ok-injective, Bool-cases, ==_iff, arith,
}
use martinez.State.Types.{Address, Account, empty_hash, Object, Db, IntraBlockState}
use martinez.State.Objects.{get_object}
use martinez.State.Accounts.{
  exists, get_balance, get_nonce, get_code_hash, create_contract, fresh_account, initial_of,
  destruct, destruct_selfdestructs, current_or, object_exists, increment, drop_current,
}
use martinez.State.Slots.{get_current_storage, get_original_storage, get_storage}
use martinez.State.Extends.{slot}
use martinez.State.Balances.{answered}
use martinez.State.Undo.Objects.{Found, get_object-Found}
use martinez.State.Answers.{
  answer, view, view-SameObject, answer-object, answer-get_object, answer-get_storage,
}

inserted : {V : Type 0} (k : ℕ) (v : V) (m : Map V) → insert k v m k ≡ some v
inserted k v m = rw ==-self

removed : {V : Type 0} (k : ℕ) (m : Map V) → remove k m k ≡ none
removed k m = rw ==-self

vacant : (i : Bool) (r : Result ℕ) → (if not i || true then ok 0 else r) ≡ ok 0
vacant true r = refl
vacant false r = refl

-- No storage and an incarnation: every slot is zero, whatever the database holds.
slot_wiped :
    (db : Db) (s : IntraBlockState) (a : Address) (o : Object) (n : ℕ)
    → s.objects a ≡ some o
    → s.storage a ≡ none
    → s.incarnations a ≡ some n
    → (key : ℕ) (b : Bool) → slot db s a key b ≡ ok 0
unfolding slot
slot_wiped db s a o n there wiped counted key true =
    rw (wiped, there, counted) (vacant (is_some o.initial) _)
slot_wiped db s a o n there wiped counted key false =
    rw (wiped, there, counted) (vacant (is_some o.initial) _)

-- An account under an address whose storage was wiped.
new_contract :
    (db : Db) (t : IntraBlockState) (a : Address) (i : Option Account) (account : Account) (n : ℕ)
    → t.objects a ≡ some (record { current = some account; initial = i })
    → t.storage a ≡ none
    → t.incarnations a ≡ some n
    → (answer (exists db a t) ≡ ok true)
      × (answer (get_balance db a t) ≡ ok account.balance)
      × (answer (get_nonce db a t) ≡ ok account.nonce)
      × (answer (get_code_hash db a t) ≡ ok account.code_hash)
      × ((key : ℕ)
          → (answer (get_current_storage db a key t) ≡ ok 0)
            × (answer (get_original_storage db a key t) ≡ ok 0))
unfolding exists get_balance get_nonce get_code_hash get_current_storage get_original_storage
new_contract db t a i account n there wiped counted = (
  answer-object db a _ t ∙ seen _,
  answer-object db a _ t ∙ seen _,
  answer-object db a _ t ∙ seen _,
  answer-object db a _ t ∙ seen _,
  λ key. (slots key false, slots key true),
)
  where
    o : Object
    o = record { current = some account; initial = i }

    seen :
        {A : Type 0} (f : Option Object → A)
        → (view (db.read_account a) (t.objects a) >>= λ p. ok (f p)) ≡ ok (f (some o))
    seen f = rw there

    slots : (key : ℕ) (b : Bool) → answer (get_storage db a key b t) ≡ ok 0
    slots key b =
        answer-get_storage db a key b t
        ∙ ap
            (λ (r : Result (Option Object)).
              r >>= λ p. if object_exists p then slot db t a key b else ok 0)
            (answer-get_object db a t ∙ ap (view (db.read_account a)) there)
        ∙ slot_wiped db t a o n there wiped counted key b

-- A contract is there, with the given balance, the nonce 0, no code and empty storage.
pub record IsNew (db : Db) (a : Address) (v : ℕ) (t : IntraBlockState) : Type 0 where
  pub there : answer (exists db a t) ≡ ok true
  pub balance : answer (get_balance db a t) ≡ ok v
  pub nonce : answer (get_nonce db a t) ≡ ok 0
  pub code_hash : answer (get_code_hash db a t) ≡ ok empty_hash
  pub slots :
      (key : ℕ)
      → (answer (get_current_storage db a key t) ≡ ok 0)
        × (answer (get_original_storage db a key t) ≡ ok 0)

create_contract-IsNew :
    (db : Db) (a : Address) (v : ℕ) (s t : IntraBlockState)
    → answer (get_balance db a s) ≡ ok v
    → create_contract db a s ≡ ok t
    → IsNew db a v t
unfolding create_contract get_balance
create_contract-IsNew db a v s t hv h =
    let ((prev, s'), found, e) = >>=-eq-ok (get_object db a s) _ h in
    let e' = sym (ok-injective e) in
    let balance : current_or 0 (λ account. account.balance) prev ≡ v =
      ok-injective (rw found at hv) in
    let (there, held, nonce, code, slots) =
      new_contract db t a (initial_of prev) (fresh_account prev)
        (unwrap_or 0 (s'.incarnations a) + 1)
        (ap (λ (u : IntraBlockState). u.objects a) e' ∙ inserted a _ s'.objects)
        (ap (λ (u : IntraBlockState). u.storage a) e' ∙ removed a s'.storage)
        (ap (λ (u : IntraBlockState). u.incarnations a) e' ∙ inserted a _ s'.incarnations) in
    record {
      there = there;
      balance = held ∙ ap ok balance;
      nonce = nonce;
      code_hash = code;
      slots = slots;
    }

then_ok :
    {A B : Type 0} (m : Result A) (f : A → B) {x : A}
    → m ≡ ok x
    → (y : B) × ((m >>= λ p. ok (f p)) ≡ ok y)
then_ok (ok p) f h = (f p, refl)
then_ok (err e) f h = cc

create_contract-total :
    (db : Db) (a : Address) (v : ℕ) (s : IntraBlockState)
    → answer (get_balance db a s) ≡ ok v
    → (t : IntraBlockState) × (create_contract db a s ≡ ok t)
unfolding create_contract get_balance
create_contract-total db a v s h =
    let (p, got) = answered (get_balance db a s) h in
    let (q, found, e) = >>=-eq-ok (get_object db a s) _ got in then_ok (get_object db a s) _ found

-- Where the balance of an address is answered, `create_contract` succeeds; the contract is there,
-- with the balance that was there, zero if there was none, the nonce 0, no code and empty storage,
-- whatever the address held before.
pub create_contract_lem :
    (db : Db) (a : Address) (v : ℕ) (s : IntraBlockState)
    → answer (get_balance db a s) ≡ ok v
    → (t : IntraBlockState) × (create_contract db a s ≡ ok t) × IsNew db a v t
create_contract_lem db a v s h =
    let (t, done) = create_contract-total db a v s h in
    (t, done, create_contract-IsNew db a v s t h done)

abbrev exists_view : Db → IntraBlockState → Address → Result Bool
exists_view db s a = view (db.read_account a) (s.objects a) >>= λ o. ok (object_exists o)

ne_of_test : (a b : Address) → (a == b) ≡ false → a ≢ b
ne_of_test a b h = ground arith

test_of_ne : (a b : Address) → a ≢ b → (a == b) ≡ false
test_of_ne a b h = ground arith

gone :
    (db : Db) (a : Address) {s : IntraBlockState} (t : IntraBlockState) (o : Option Object)
    → Found db a s o t
    → exists_view db (drop_current a o t) a ≡ ok false
gone db a t none f = rw (f.there, f.absent refl)
gone db a t (some o) f = rw ==-self

others :
    (db : Db) (a b : Address) (s : IntraBlockState) (o : Option Object)
    → a ≢ b
    → exists_view db (drop_current a o s) b ≡ exists_view db s b
others db a b s none ne = refl
others db a b s (some o) ne = rw (test_of_ne a b ne)

abbrev pub IsAbsent : Address → List Address → Type 0
IsAbsent b [] = Unit
IsAbsent b (a ∷ rest) = (a ≢ b) × IsAbsent b rest

-- A destroyed account does not exist, and the existence of the others is what it was.
destruct-exists :
    (db : Db) (a : Address) (s t : IntraBlockState)
    → destruct db a s ≡ ok t
    → (answer (exists db a t) ≡ ok false)
      × ((b : Address) → a ≢ b → answer (exists db b t) ≡ answer (exists db b s))
unfolding destruct exists
destruct-exists db a s t h =
    let dropped : IntraBlockState = record (increment a s) { storage = remove a s.storage } in
    let ((o, s'), found, e) = >>=-eq-ok (get_object db a dropped) _ h in
    let f = get_object-Found db a dropped o s' found in
    let e' = sym (ok-injective e) in
    (
      answer-object db a _ t
          ∙ ap (λ (u : IntraBlockState). exists_view db u a) e'
          ∙ gone db a s' o f,
      λ b ne.
          answer-object db b _ t
          ∙ ap (λ (u : IntraBlockState). exists_view db u b) e'
          ∙ others db a b s' o ne
          ∙ ap (λ (v : Result (Option Object)). v >>= λ p. ok (object_exists p))
              (view-SameObject _ _ _ (f.extends.objects b))
          ∙ sym (answer-object db b _ s),
    )

abbrev pub Destroyed : Db → IntraBlockState → List Address → Type 0
Destroyed db t [] = Unit
Destroyed db t (a ∷ rest) = (answer (exists db a t) ≡ ok false) × Destroyed db t rest

-- What is destroyed stays so while other accounts are destroyed.
destruct_selfdestructs-keeps :
    (db : Db) (order : List Address) (a : Address) (s t : IntraBlockState)
    → destruct_selfdestructs db order s ≡ ok t
    → answer (exists db a s) ≡ ok false
    → answer (exists db a t) ≡ ok false
unfolding destruct_selfdestructs
destruct_selfdestructs-keeps db [] a s t h gone =
    ap (λ (u : IntraBlockState). answer (exists db a u)) (sym (ok-injective h)) ∙ gone
destruct_selfdestructs-keeps db (b ∷ rest) a s t h gone =
    let (s', one, e) = >>=-eq-ok (destruct db b s) _ h in
    let (b_gone, kept) = destruct-exists db b s s' one in
    destruct_selfdestructs-keeps db rest a s' t e (elim (Bool-cases (b == a)) [
      | inl same ↦ subst (λ c. answer (exists db c s') ≡ ok false) ((==_iff b a).0 same) b_gone
      | inr other ↦ kept a (ne_of_test b a other) ∙ gone
    ])

-- In whatever order the set of self-destructs is iterated: when the loop ends, none of the listed
-- accounts exists, and an account that is not listed exists if it did before.
pub destruct_selfdestructs_lem :
    (db : Db) (order : List Address) (s t : IntraBlockState)
    → destruct_selfdestructs db order s ≡ ok t
    → Destroyed db t order
      × ((b : Address) → IsAbsent b order → answer (exists db b t) ≡ answer (exists db b s))
unfolding destruct_selfdestructs
destruct_selfdestructs_lem db [] s t h =
    (tt, λ b out. ap (λ (u : IntraBlockState). answer (exists db b u)) (sym (ok-injective h)))
destruct_selfdestructs_lem db (a ∷ rest) s t h =
    let (s', one, e) = >>=-eq-ok (destruct db a s) _ h in
    let (gone, kept) = destruct-exists db a s s' one in
    let (all, others) = destruct_selfdestructs_lem db rest s' t e in
    (
      (destruct_selfdestructs-keeps db rest a s' t e gone, all),
      λ b out. others b out.1 ∙ kept b out.0,
    )
