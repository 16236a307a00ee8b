-- ===== src/State/Answers.antt =====
-- A state that extends another gives the same answers: what a revert means to the EVM.
use martinez.Base.{
  ℕ, Bool, true, false, not, ◌||◌, Option, none, some, ◌≡◌, refl, sym, ap, ap₂, subst, ◌∙◌,
  ok-injective, inl, inr, if◌then◌else◌, Result, ok, err, is_some, ◌>>=◌, Bool-cases, Option-cases,
}
use martinez.State.Types.{Address, Account, Object, Db, IntraBlockState}
use martinez.State.Objects.{get_object, fill}
use martinez.State.Accounts.{
  exists, is_dead, get_balance, get_nonce, get_code_hash, object_exists, initial_of,
}
use martinez.State.Accounts
use martinez.State.Slots
use martinez.State.Slots.{
  cached, entry, with_entry, read_slot, read_current, get_storage, get_current_storage,
  get_original_storage,
}
use martinez.State.Extends.{Extends, SameObject, loaded, slot, slot_value, IsCounted}
use martinez.State.Undo.Objects.{get_object-Found}
use martinez.State.Journal.{take_snapshot, revert_to_snapshot}
use martinez.State.Runs.{Run}
use martinez.State.Revert.{revert-Restored}

-- What a call returns, without the state that it leaves.
abbrev pub answer {ℓ} : {A : Type ℓ} → Result (A × IntraBlockState) → Result A
answer (ok (a, s)) = ok a
answer (err e) = err e

abbrev pub view : Result (Option Account) → Option Object → Result (Option Object)
view read (some o) = ok (some o)
view read none = read >>= λ account. ok (elim account [ none ↦ none | some a ↦ some (loaded a) ])

pub view-SameObject :
    (read : Result (Option Account)) (o p : Option Object)
    → SameObject read o p
    → view read p ≡ view read o
view-SameObject read (some o) p h = rw h
view-SameObject read none p (inl e) = rw e
view-SameObject read none p (inr (account, r, e)) = rw (e, r)

answer-read :
    (r : Result ℕ) (f : ℕ → IntraBlockState)
    → answer (◌>>=◌ {B = ℕ × IntraBlockState} r (λ val. ok (val, f val))) ≡ r
answer-read (ok v) f = refl
answer-read (err e) f = refl

module _ (db : Db) (a : Address) where
  answer-fill :
      {A : Type 0} (f : Option Object → A) (s : IntraBlockState) (r : Result (Option Account))
      → answer (
          ◌>>=◌ {B = A × IntraBlockState}
            (r >>= λ account. ok (fill a account s))
            (λ p. ok (f p.0, p.1)))
        ≡ (view r none >>= λ o. ok (f o))
  answer-fill f s (ok none) = refl
  answer-fill f s (ok (some account)) = refl
  answer-fill f s (err e) = refl

  -- The answer of a getter of accounts is read off the view of the object.
  pub answer-object :
      {A : Type 0} (f : Option Object → A) (s : IntraBlockState)
      → answer (◌>>=◌ {B = A × IntraBlockState} (get_object db a s) (λ p. ok (f p.0, p.1)))
        ≡ (view (db.read_account a) (s.objects a) >>= λ o. ok (f o))
  unfolding get_object
  answer-object f s = elim (Option-cases (s.objects a)) [
    | inl vacant ↦ rw vacant (answer-fill f s (db.read_account a))
    | inr (o, there) ↦ rw there
  ]

  same_answer :
      {A : Type 0} (f : Option Object → A) (s x : IntraBlockState)
      → Extends db s x
      → answer (◌>>=◌ {B = A × IntraBlockState} (get_object db a x) (λ p. ok (f p.0, p.1)))
        ≡ answer (◌>>=◌ {B = A × IntraBlockState} (get_object db a s) (λ p. ok (f p.0, p.1)))
  same_answer f s x e =
      answer-object f x
      ∙ ap (λ (v : Result (Option Object)). v >>= λ o. ok (f o))
          (view-SameObject _ _ _ (e.objects a))
      ∙ sym (answer-object f s)

  answer-read_slot :
      (key : ℕ) (q : Option ℕ) (initial destroyed : Bool) (s : IntraBlockState)
      → answer (read_slot db a key q (not initial || destroyed) s)
        ≡ slot_value q (ok initial) destroyed (db.read_storage a key)
  answer-read_slot key (some v) i d s = refl
  answer-read_slot key none true true s = refl
  answer-read_slot key none false d s = refl
  answer-read_slot key none true false s = answer-read (db.read_storage a key) _

  pub answer-get_object :
      (s : IntraBlockState) → answer (get_object db a s) ≡ view (db.read_account a) (s.objects a)
  unfolding get_object
  answer-get_object s = elim (Option-cases (s.objects a)) [
    | inl vacant ↦ rw vacant (filled (db.read_account a))
    | inr (o, there) ↦ rw there
  ]
    where
      filled :
          (r : Result (Option Account))
          → answer (r >>= λ account. ok (fill a account s)) ≡ view r none
      filled (ok none) = refl
      filled (ok (some account)) = refl
      filled (err e) = refl

  module _ (key : ℕ) (b : Bool) where
    answer-read_current :
        (s : IntraBlockState) (o : Option Object)
        → s.objects a ≡ o
        → answer (read_current db a key b o s)
          ≡ (if object_exists o then slot db s a key b else ok 0)
    unfolding slot
    answer-read_current s none there = refl
    answer-read_current s (some o) there = elim (Bool-cases (is_some o.current)) [
      | inl alive ↦
          rw (alive, there)
            (answer-read_slot key _ (is_some o.initial) (is_some (s.incarnations a)) _)
      | inr dead ↦ rw dead
    ]

    answer-found :
        (s : IntraBlockState) (r : Result (Option Object × IntraBlockState))
        → get_object db a s ≡ r
        → answer (r >>= λ p. read_current db a key b p.0 p.1)
          ≡ (answer r >>= λ o. if object_exists o then slot db s a key b else ok 0)
    answer-found s (err e) h = refl
    answer-found s (ok (o, s')) h =
        let f = get_object-Found db a s o s' h in
        answer-read_current s' o f.there
        ∙ ap (λ (v : Result ℕ). if object_exists o then v else ok 0) (f.extends.slots a key b)

    -- A slot is read if the account exists, else the answer is zero.
    pub answer-get_storage :
        (s : IntraBlockState)
        → answer (get_storage db a key b s) ≡ (
            answer (get_object db a s) >>= λ o. if object_exists o then slot db s a key b else ok 0)
    unfolding get_storage
    answer-get_storage s = answer-found s (get_object db a s) refl

    same_storage :
        (s x : IntraBlockState)
        → Extends db s x
        → answer (get_storage db a key b x) ≡ answer (get_storage db a key b s)
    same_storage s x e =
        answer-get_storage x
        ∙ ap₂
            (λ (r : Result (Option Object)) (v : Result ℕ).
              r >>= λ o. if object_exists o then v else ok 0)
            (answer-get_object x ∙ view-SameObject _ _ _ (e.objects a) ∙ sym (answer-get_object s))
            (e.slots a key b)
        ∙ sym (answer-get_storage s)

-- The answers of the getters at every account and slot.
pub record SameAnswers (db : Db) (s x : IntraBlockState) : Type 0 where
  pub exists : (a : Address) → answer (Accounts.exists db a x) ≡ answer (Accounts.exists db a s)
  pub is_dead : (a : Address) → answer (Accounts.is_dead db a x) ≡ answer (Accounts.is_dead db a s)
  pub balance :
      (a : Address) → answer (Accounts.get_balance db a x) ≡ answer (Accounts.get_balance db a s)
  pub nonce :
      (a : Address) → answer (Accounts.get_nonce db a x) ≡ answer (Accounts.get_nonce db a s)
  pub code_hash :
      (a : Address)
      → answer (Accounts.get_code_hash db a x) ≡ answer (Accounts.get_code_hash db a s)
  pub current_storage :
      (a : Address) (key : ℕ)
      → answer (Slots.get_current_storage db a key x)
        ≡ answer (Slots.get_current_storage db a key s)
  pub original_storage :
      (a : Address) (key : ℕ)
      → answer (Slots.get_original_storage db a key x)
        ≡ answer (Slots.get_original_storage db a key s)

pub Extends-SameAnswers : (db : Db) (s x : IntraBlockState) → Extends db s x → SameAnswers db s x
unfolding exists is_dead get_balance get_nonce get_code_hash get_current_storage
    get_original_storage
Extends-SameAnswers db s x e = record {
  exists = λ a. same_answer db a _ s x e;
  is_dead = λ a. same_answer db a _ s x e;
  balance = λ a. same_answer db a _ s x e;
  nonce = λ a. same_answer db a _ s x e;
  code_hash = λ a. same_answer db a _ s x e;
  current_storage = λ a key. same_storage db a key false s x e;
  original_storage = λ a key. same_storage db a key true s x e;
}

-- After a revert to a snapshot, whatever was run since, `exists`, `is_dead`, the balance, the nonce,
-- the code hash and the current and original storage of every account are answered, or fail, as
-- they did when the snapshot was taken.
pub revert-SameAnswers :
    (db : Db) (s t x : IntraBlockState)
    → IsCounted s
    → Run db s t
    → revert_to_snapshot (take_snapshot s) t ≡ ok x
    → SameAnswers db s x
revert-SameAnswers db s t x c r h =
    let (y, back, restored) = revert-Restored db s t c r in
    Extends-SameAnswers db s x (subst (Extends db s) (ok-injective (sym back ∙ h)) restored.extends)
