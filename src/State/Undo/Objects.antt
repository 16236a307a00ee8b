-- ===== src/State/Undo/Objects.antt =====
-- Reading an account leaves a cache at most, and an object put back undoes a change of it.
use martinez.Base.{
  ℕ, Bool, Option, none, some, ◌≡◌, refl, sym, subst, ◌∙◌, inl, inr, ==-self, at_key, Result, ok,
  err, update, ◌>>=◌, Option-cases, ok_parts,
}
use martinez.State.Types.{Address, Account, Object, Db, IntraBlockState}
use martinez.State.Objects.{get_object, fill}
use martinez.State.Extends.{
  slot, loaded, SameObject, SameObject-refl, had_initial, had_initial-SameObject, Extends,
  Extends-refl,
}
use martinez.State.Undo.{Undoes, Undoes-cached}

-- A slot is read from the account's storage, incarnation and initial account alone.
pub slot_congr :
    (db : Db) (s t : IntraBlockState) (a : Address)
    → s.storage a ≡ t.storage a
    → s.incarnations a ≡ t.incarnations a
    → had_initial (db.read_account a) (s.objects a) ≡ had_initial (db.read_account a) (t.objects a)
    → (key : ℕ) (b : Bool) → slot db s a key b ≡ slot db t a key b
unfolding slot
slot_congr db s t a p q r key b = rw (p, q, r)

-- Another object in place, with the same answer to whether the account was there initially.
abbrev pub with_object : Address → Option Object → IntraBlockState → IntraBlockState
with_object a o s = record s { objects = update s.objects a o }

abbrev initially : Db → Address → Option Object → Result Bool
initially db a o = had_initial (db.read_account a) o

slot-with_object :
    (db : Db) (s : IntraBlockState) (a : Address) (o : Option Object)
    → initially db a o ≡ initially db a (s.objects a)
    → (b : Address) (key : ℕ) (original : Bool)
    → slot db (with_object a o s) b key original ≡ slot db s b key original
slot-with_object db s a o h =
    at_key _ a (slot_congr db _ s a refl refl (rw ==-self h))
      (λ b ne. slot_congr db _ s b refl refl (rw ne))

-- If `x` extends `s` with another object at `a`, then putting the old object back gives a state
-- that extends `s`.
pub Extends-put_back :
    (db : Db) (s x : IntraBlockState) (a : Address) (o p : Option Object)
    → initially db a o ≡ initially db a (s.objects a)
    → SameObject (db.read_account a) (s.objects a) p
    → Extends db (with_object a o s) x
    → Extends db s (with_object a p x)
Extends-put_back db s x a o p initial same e = record {
  objects = at_key _ a (rw ==-self same) (λ b ne. rw ne (rw ne at (e.objects b)));
  slots = λ b key original.
      slot-with_object db x a p put b key original
      ∙ e.slots b key original
      ∙ slot-with_object db s a o initial b key original;
  incarnations = e.incarnations;
  existing_code = e.existing_code;
  new_code = e.new_code;
  self_destructs = e.self_destructs;
  touched = e.touched;
  ripemd = e.ripemd;
  addresses = e.addresses;
  keys = e.keys;
}
  where
    there : initially db a (x.objects a) ≡ initially db a o
    there = had_initial-SameObject _ _ _ (rw ==-self at (e.objects a))

    put : initially db a p ≡ initially db a (x.objects a)
    put = had_initial-SameObject _ _ _ same ∙ sym initial ∙ sym there

-- What `get_object` leaves: at most a cached read, and the object in its place.
pub record Found (db : Db) (a : Address) (s : IntraBlockState) (o : Option Object)
    (t : IntraBlockState) : Type 0 where
  pub extends : Extends db s t
  pub journal : t.journal ≡ s.journal
  pub logs : t.logs ≡ s.logs
  pub there : t.objects a ≡ o
  pub absent : o ≡ none → db.read_account a ≡ ok none
  pub storage : (b : Address) → t.storage b ≡ s.storage b
  pub incarnations : (b : Address) → t.incarnations b ≡ s.incarnations b

Found-loaded :
    (db : Db) (a : Address) (s : IntraBlockState) (account : Account)
    → s.objects a ≡ none
    → db.read_account a ≡ ok (some account)
    → Found db a s (some (loaded account)) (with_object a (some (loaded account)) s)
Found-loaded db a s account vacant r = record {
  extends = record {
    objects =
        at_key _ a (rw (==-self, vacant) (inr (account, r, refl)))
          (λ b ne. rw ne (SameObject-refl _ _));
    slots = slot-with_object db s a (some (loaded account)) (rw (vacant, r));
    incarnations = λ b. refl;
    existing_code = λ h. inr refl;
    new_code = λ h. inr refl;
    self_destructs = λ b. refl;
    touched = λ b h. refl;
    ripemd = λ h. h;
    addresses = λ b. refl;
    keys = λ b key. refl;
  };
  journal = refl;
  logs = refl;
  there = rw ==-self;
  absent = λ e. cc;
  storage = λ b. refl;
  incarnations = λ b. refl;
}

pub Found-here :
    (db : Db) (a : Address) (s : IntraBlockState) (o : Option Object)
    → s.objects a ≡ o
    → (o ≡ none → db.read_account a ≡ ok none)
    → Found db a s o s
Found-here db a s o h absent = record {
  extends = Extends-refl db s;
  journal = refl;
  logs = refl;
  there = h;
  absent = absent;
  storage = λ b. refl;
  incarnations = λ b. refl;
}

-- A lemma about the outcome of a step carries over to a name for the outcome.
Found-of :
    (db : Db) (a : Address) (s : IntraBlockState) (o p : Option Object) (t u : IntraBlockState)
    → Found db a s o t
    → ◌≡◌ {A = Result (Option Object × IntraBlockState)} (ok (o, t)) (ok (p, u))
    → Found db a s p u
Found-of db a s o p t u f h =
    let (e, e') = ok_parts h in subst (λ q. Found db a s q u) e (subst (Found db a s o) e' f)

get_object_read :
    (db : Db) (a : Address) (s : IntraBlockState) (r : Result (Option Account)) (o : Option Object)
    (t : IntraBlockState)
    → db.read_account a ≡ r
    → s.objects a ≡ none
    → (r >>= λ accdata. ok (fill a accdata s)) ≡ ok (o, t)
    → Found db a s o t
get_object_read db a s (ok none) o t e v h =
    Found-of db a s none o s t (Found-here db a s none v (λ _. e)) h
get_object_read db a s (ok (some account)) o t e v h =
    Found-of db a s _ o _ t (Found-loaded db a s account v e) h
get_object_read db a s (err f) o t e v h = cc

pub get_object-Found :
    (db : Db) (a : Address) (s : IntraBlockState) (o : Option Object) (t : IntraBlockState)
    → get_object db a s ≡ ok (o, t)
    → Found db a s o t
unfolding get_object
get_object-Found db a s o t h = elim (Option-cases (s.objects a)) [
  | inl vacant ↦ get_object_read db a s (db.read_account a) o t refl vacant (rw vacant at h)
  | inr (object, there) ↦
      Found-of db a s (some object) o s t (Found-here db a s (some object) there (λ e. cc))
        (rw there at h)
]

pub Found-Undoes :
    (db : Db) (a : Address) (s t : IntraBlockState) (o : Option Object)
    → Found db a s o t
    → Undoes db s t
Found-Undoes db a s t o f = Undoes-cached db s t f.extends f.journal f.logs
