-- ===== src/State/Balances.antt =====
-- What a change of a balance does, read through the getters.
use martinez.Base.{
  ℕ, ◌+◌, ◌-◌, ◌%◌, ◌^◌, ◌<◌, false, Option, none, some, ◌≡◌, ◌≢◌, refl, sym, ap, subst, ◌∙◌, inl,
  inr, ◌∷◌, ◌==◌, ==-self, Result, ok, err, insert, unwrap, unwrap-ok, ◌>>=◌, >>=-eq-ok, ok_parts,
  ok-injective, Bool-cases, ==_iff, arith, Map, at_key,
}
use martinez.State.Types.{Address, Account, Object, update_balance, Db, IntraBlockState}
use martinez.State.Objects.{
  get_object, ensure_object, ensure_current, ensure_entry, get_or_create_object,
}
use martinez.State.Accounts.{
  get_balance, touch, change_balance, add_to_balance, subtract_from_balance, current_or,
}
use martinez.State.Undo.Objects.{get_object-Found}
use martinez.State.Undo.Ensure.{ensure_object-Ensured}
use martinez.State.Answers.{answer, view, view-SameObject, answer-object}

abbrev balance_of : Option Object → ℕ
balance_of = current_or 0 (λ account. account.balance)

abbrev balance_view : Db → IntraBlockState → Address → Result ℕ
balance_view db s a = view (db.read_account a) (s.objects a) >>= λ o. ok (balance_of o)

-- Making an account keeps every balance: a new or revived account has none.
ensure_entry-balance :
    (db : Db) (a : Address) (s : IntraBlockState) (o : Option Object)
    → s.objects a ≡ o
    → (o ≡ none → db.read_account a ≡ ok none)
    → (b : Address) → balance_view db (ensure_entry a o s) b ≡ balance_view db s b
ensure_entry-balance db a s none h absent b = elim (Bool-cases (a == b)) [
  | inl same ↦
      subst (λ c. balance_view db (ensure_entry a none s) c ≡ balance_view db s c)
        ((==_iff a b).0 same) (rw (==-self, h, absent refl))
  | inr other ↦ rw other
]
ensure_entry-balance db a s (some o) h absent b = go o.current refl
  where
    go :
        (current : Option Account)
        → o.current ≡ current
        → balance_view db (ensure_current a o current s) b ≡ balance_view db s b
    go (some account) e = refl
    go none e = elim (Bool-cases (a == b)) [
      | inl same ↦
          subst (λ c. balance_view db (ensure_current a o none s) c ≡ balance_view db s c)
            ((==_iff a b).0 same) (rw (==-self, h, e))
      | inr other ↦ rw other
    ]

ensure_object-balance :
    (db : Db) (a : Address) (s t : IntraBlockState)
    → ensure_object db a s ≡ ok t
    → (b : Address) → balance_view db t b ≡ balance_view db s b
unfolding ensure_object
ensure_object-balance db a s t h b =
    let ((o, s'), found, e) = >>=-eq-ok (get_object db a s) _ h in
    let f = get_object-Found db a s o s' found in
    ap (λ (u : IntraBlockState). balance_view db u b) (sym (ok-injective e))
    ∙ ensure_entry-balance db a s' o f.there f.absent b
    ∙ ap (λ (v : Result (Option Object)). v >>= λ o. ok (balance_of o))
        (view-SameObject _ _ _ (f.extends.objects b))

objects-touch : (a : Address) (s : IntraBlockState) → (touch a s).objects ≡ s.objects
unfolding touch
objects-touch a s = ground arith

balance_view-there :
    (db : Db) (s : IntraBlockState) (a : Address) (o : Object) (account : Account)
    → s.objects a ≡ some o
    → o.current ≡ some account
    → balance_view db s a ≡ ok account.balance
balance_view-there db s a o account there alive = rw (there, alive)

ne_test : (a b : ℕ) → a ≢ b → (a == b) ≡ false
ne_test a b h = ground arith

test_ne : (a b : ℕ) → (a == b) ≡ false → a ≢ b
test_ne a b h = ground arith

change_balance-view :
    (db : Db) (a : Address) (f : ℕ → ℕ) (s t : IntraBlockState)
    → change_balance db a f s ≡ ok t
    → (v : ℕ) × (balance_view db s a ≡ ok v)
      × (balance_view db t a ≡ ok (f v))
      × ((b : Address) → a ≢ b → balance_view db t b ≡ balance_view db s b)
unfolding change_balance get_or_create_object
change_balance-view db a f s t h =
    let ((o, s'), made, e) = >>=-eq-ok (get_or_create_object db a s) _ h in
    let (s'', ensured, e₁) = >>=-eq-ok (ensure_object db a s) _ made in
    let (o', there, e₂) = >>=-eq-ok (unwrap (s''.objects a)) _ e₁ in
    let (same, same') = ok_parts e₂ in
    let (account, current, e₃) = >>=-eq-ok (unwrap o.current) _ e in
    let alive = unwrap-ok o.current current in
    let place : s'.objects a ≡ some o =
      sym (ap (λ (u : IntraBlockState). u.objects a) same') ∙ unwrap-ok _ there ∙ ap some same in
    let kept = ensure_object-balance db a s s' (ensured ∙ ap ok same') in
    let u : IntraBlockState = record s' {
      journal = update_balance a account.balance ∷ s'.journal;
      objects =
          insert a (record o { current = some (record account { balance = f account.balance }) })
            s'.objects;
    } in
    let view_touch = λ (b : Address).
      ap (λ (w : IntraBlockState). balance_view db w b) (sym (ok-injective e₃))
      ∙ ap
          (λ (objects : Map Object).
            view (db.read_account b) (objects b) >>= λ p. ok (balance_of p))
          (objects-touch a u) in
    (
      account.balance,
      sym (kept a) ∙ balance_view-there db s' a o account place alive,
      view_touch a ∙ rw ==-self,
      λ b ne. view_touch b ∙ rw (ne_test a b ne) (kept b),
    )

-- After a successful change of a balance by `f` the account has `f` of the balance that it had
-- before, zero if there was no account; every other account has its old balance.
change_balance-answer :
    (db : Db) (a : Address) (f : ℕ → ℕ) (s t : IntraBlockState)
    → change_balance db a f s ≡ ok t
    → (v : ℕ) × (answer (get_balance db a s) ≡ ok v)
      × (answer (get_balance db a t) ≡ ok (f v))
      × ((b : Address) → a ≢ b → answer (get_balance db b t) ≡ answer (get_balance db b s))
unfolding get_balance
change_balance-answer db a f s t h =
    let (v, before, after, others) = change_balance-view db a f s t h in
    (
      v,
      answer-object db a _ s ∙ before,
      answer-object db a _ t ∙ after,
      λ b ne. answer-object db b _ t ∙ others b ne ∙ sym (answer-object db b _ s),
    )

pub answered :
    {A : Type 0} (r : Result (A × IntraBlockState)) {v : A}
    → answer r ≡ ok v
    → (p : A × IntraBlockState) × (r ≡ ok p)
answered (ok p) h = (p, refl)
answered (err e) h = cc

ensure_object-total :
    (db : Db) (a : Address) (s : IntraBlockState) (v : ℕ)
    → answer (get_balance db a s) ≡ ok v
    → (t : IntraBlockState) × (ensure_object db a s ≡ ok t)
unfolding get_balance ensure_object
ensure_object-total db a s v h =
    let (p, got) = answered (get_balance db a s) h in
    let ((o, s'), found, e₁) = >>=-eq-ok (get_object db a s) _ got in
    (ensure_entry a o s', rw found refl)

-- Where the balance is answered, a change of it succeeds.
change_balance-total :
    (db : Db) (a : Address) (f : ℕ → ℕ) (s : IntraBlockState) (v : ℕ)
    → answer (get_balance db a s) ≡ ok v
    → (t : IntraBlockState) × (change_balance db a f s ≡ ok t)
unfolding change_balance get_or_create_object
change_balance-total db a f s v h =
    let (s', ensured) = ensure_object-total db a s v h in
    let u = ensure_object-Ensured db a s s' ensured in
    let t : IntraBlockState = touch a (record s' {
      journal = update_balance a u.account.balance ∷ s'.journal;
      objects =
          insert a
            (record u.object {
              current = some (record u.account { balance = f u.account.balance });
            })
            s'.objects;
    }) in
    (t, rw (ensured, u.there, u.alive) refl)

-- Where the balance of an account is answered, `add_to_balance` and then `subtract_from_balance` of
-- the same amount succeed, the balance and the amount being below 2^256: in between the account has
-- their sum modulo 2^256, and at the end every account's balance is answered as at the start.
pub subtract_from_balance-add_to_balance :
    (db : Db) (a : Address) (n v : ℕ) (s : IntraBlockState)
    → n < 2 ^ 256
    → v < 2 ^ 256
    → answer (get_balance db a s) ≡ ok v
    → (t : IntraBlockState) × (u : IntraBlockState) × (add_to_balance db a n s ≡ ok t)
      × (subtract_from_balance db a n t ≡ ok u)
      × (answer (get_balance db a t) ≡ ok ((v + n) % 2 ^ 256))
      × ((b : Address) → answer (get_balance db b u) ≡ answer (get_balance db b s))
unfolding add_to_balance subtract_from_balance
subtract_from_balance-add_to_balance db a n v s hn hv hs =
    let (t, ht) = change_balance-total db a (λ balance. (balance + n) % 2 ^ 256) s v hs in
    let (v₁, before₁, after₁, others₁) = change_balance-answer db a _ s t ht in
    let (u, hu) =
      change_balance-total db a (λ balance. (balance + 2 ^ 256 - n) % 2 ^ 256) t _ after₁ in
    let (v₂, before₂, after₂, others₂) = change_balance-answer db a _ t u hu in
    let e₁ : v₁ ≡ v = ok-injective (sym before₁ ∙ hs) in
    let e₂ : v₂ ≡ (v₁ + n) % 2 ^ 256 = ok-injective (sym before₂ ∙ after₁) in
    let back : (v₂ + 2 ^ 256 - n) % 2 ^ 256 ≡ v = omega arith in
    (
      t,
      u,
      ht,
      hu,
      after₁ ∙ ap (λ (w : ℕ). ok ((w + n) % 2 ^ 256)) e₁,
      at_key _ a (after₂ ∙ ap ok back ∙ sym hs)
          (λ b other. let ne = test_ne a b other in others₂ b ne ∙ others₁ b ne),
    )
