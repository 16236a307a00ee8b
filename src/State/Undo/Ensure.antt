-- ===== src/State/Undo/Ensure.antt =====
-- Undoing a change of one account's object, and the creation of an account.
use martinez.Base.{
  Option, none, some, ◌≡◌, refl, subst, inl, ◌∷◌, ==-self, ok, insert, >>=-eq-ok, ok-injective,
}
use martinez.State.Types.{
  Address, Account, default_account, Object, Delta, create, update_object, Db, IntraBlockState,
}
use martinez.State.Objects.{get_object, ensure_object, ensure_current, ensure_entry}
use martinez.State.Journal.{revert}
use martinez.State.Extends.{Extends-refl}
use martinez.State.Undo.{Extends-journal_left, Undoes, Undoes-cached, Undoes-one, Undoes-trans}
use martinez.State.Undo.Objects.{
  Found, with_object, Extends-put_back, get_object-Found, Found-Undoes,
}

-- A present object takes a new one with the same initial account, and one entry puts it back.
pub Undoes-object :
    (db : Db) (a : Address) (s : IntraBlockState) (o o' : Object) (d : Delta)
    → s.objects a ≡ some o
    → o'.initial ≡ o.initial
    → ((x : IntraBlockState) → x.objects a ≡ some o' → revert d x ≡ ok (with_object a (some o) x))
    → Undoes db s (record s { objects = insert a o' s.objects; journal = d ∷ s.journal })
Undoes-object db a s o o' d there same back =
    Undoes-one db s _ d refl refl (λ b. refl)
      λ x e. (
        with_object a (some o) x,
        back x (rw ==-self at (e.objects a)),
        Extends-put_back db s x a (some o') (some o) (rw (there, same)) (rw there refl)
            (Extends-journal_left db (with_object a (some o') s) x (d ∷ s.journal) e),
        refl,
        refl,
      )

abbrev made : Account → Object
made account = record { initial = none; current = some account }

pub Undoes-create :
    (db : Db) (a : Address) (s : IntraBlockState) (account : Account)
    → s.objects a ≡ none
    → db.read_account a ≡ ok none
    → Undoes db s
        (record s { objects = insert a (made account) s.objects; journal = create a ∷ s.journal })
unfolding revert
Undoes-create db a s account vacant absent =
    Undoes-one db s _ (create a) refl refl (λ b. refl)
      λ x e. (
        with_object a none x,
        refl,
        Extends-put_back db s x a (some (made account)) none (rw (vacant, absent))
            (rw vacant (inl refl))
            (Extends-journal_left db (with_object a (some (made account)) s) x
              (create a ∷ s.journal) e),
        refl,
        refl,
      )

-- What `ensure_object` leaves: an account that is there, undone by what was pushed.
pub record Ensured (db : Db) (a : Address) (s t : IntraBlockState) : Type 0 where
  pub undoes : Undoes db s t
  pub object : Object
  pub account : Account
  pub there : t.objects a ≡ some object
  pub alive : object.current ≡ some account

Ensured-current :
    (db : Db) (a : Address) (s : IntraBlockState) (o : Object) (current : Option Account)
    → s.objects a ≡ some o
    → o.current ≡ current
    → Ensured db a s (ensure_current a o current s)
unfolding revert
Ensured-current db a s o (some account) there alive = record {
  undoes = Undoes-cached db s s (Extends-refl db s) refl refl;
  object = o;
  account = account;
  there = there;
  alive = alive;
}
Ensured-current db a s o none there dead = record {
  undoes = Undoes-object db a s o _ (update_object a o) there refl (λ x h. refl);
  object = record o { current = some default_account };
  account = default_account;
  there = rw ==-self;
  alive = refl;
}

Ensured-entry :
    (db : Db) (a : Address) (s t : IntraBlockState) (o : Option Object)
    → Found db a s o t
    → Ensured db a t (ensure_entry a o t)
Ensured-entry db a s t (some o) f = Ensured-current db a t o o.current f.there refl
Ensured-entry db a s t none f = record {
  undoes = Undoes-create db a t default_account f.there (f.absent refl);
  object = made default_account;
  account = default_account;
  there = rw ==-self;
  alive = refl;
}

-- `ensure_object` fails only with the database; else it leaves an account.
pub ensure_object-Ensured :
    (db : Db) (a : Address) (s t : IntraBlockState) → ensure_object db a s ≡ ok t → Ensured db a s t
unfolding ensure_object
ensure_object-Ensured db a s t h =
    let ((o, s'), found, e) = >>=-eq-ok (get_object db a s) _ h in
    let f = get_object-Found db a s o s' found in
    let u = Ensured-entry db a s s' o f in
    subst (Ensured db a s) (ok-injective e) (record {
      undoes = Undoes-trans db s s' (ensure_entry a o s') (Found-Undoes db a s s' o f) u.undoes;
      object = u.object;
      account = u.account;
      there = u.there;
      alive = u.alive;
    })
