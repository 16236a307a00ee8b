-- ===== src/State/Extends.antt =====
-- When a state differs from another by cached reads only: what a revert restores.
use martinez.Base.{
  ℕ, Bool, true, not, ◌||◌, Option, none, some, ◌≡◌, ◌≢◌, refl, ◌⊎◌, inl, inr, sym, ◌∙◌,
  if◌then◌else◌, Result, ok, List, Map, Set, no_element, is_some, unwrap_or, ◌>>=◌,
}
use martinez.State.Types.{
  Address, Bytes, Account, Object, Storage, default_storage, Delta, Db, IntraBlockState,
}
use martinez.State.Accounts.{ripemd_address}
use martinez.State.Slots.{cached}

-- The object that `get_object` puts in for an account it has read.
abbrev pub loaded : Account → Object
loaded account = record { initial = some account; current = some account }

-- `later` is `earlier`, or it was vacant and holds the account of the database.
abbrev pub SameObject : Result (Option Account) → Option Object → Option Object → Type 0
SameObject read (some object) later = later ≡ some object
SameObject read none later =
    (later ≡ none)
    ⊎ ((account : Account) × (read ≡ ok (some account)) × (later ≡ some (loaded account)))

-- Whether the account existed at the beginning of the block.
abbrev pub had_initial : Result (Option Account) → Option Object → Result Bool
had_initial read (some object) = ok (is_some object.initial)
had_initial read none = read >>= λ account. ok (is_some account)

abbrev pub vacant_slot : Bool → Result ℕ → Bool → Result ℕ
vacant_slot destroyed read initial = if not initial || destroyed then ok 0 else read

abbrev pub slot_value : Option ℕ → Result Bool → Bool → Result ℕ → Result ℕ
slot_value (some v) initial destroyed read = ok v
slot_value none initial destroyed read = initial >>= vacant_slot destroyed read

abbrev pub storage_value : Option Storage → ℕ → Bool → Result Bool → Bool → Result ℕ → Result ℕ
storage_value storage key original initial destroyed read =
    let entry = unwrap_or default_storage storage in
    slot_value (cached original (entry.current key) (entry.committed key)) initial destroyed read

module _ (db : Db) where
  -- What a storage slot of an account that exists holds, now or at the start of the transaction.
  unfoldable pub slot : IntraBlockState → Address → ℕ → Bool → Result ℕ
  slot s a key original =
      storage_value (s.storage a) key original (had_initial (db.read_account a) (s.objects a))
        (is_some (s.incarnations a)) (db.read_storage a key)

-- An incarnation that is in the map is not zero: the revert takes out an entry that reaches zero.
abbrev pub IsCounted : IntraBlockState → Type 0
IsCounted s = (a : Address) → s.incarnations a ≢ some 0

-- Whether a storage key is warm.
abbrev pub accessed : IntraBlockState → Address → ℕ → Bool
accessed s a key = unwrap_or no_element (s.accessed_storage_keys a) key

-- `x` is `s`, but for reads that were cached, code that was stored and the touch of RIPEMD-160.
pub record Extends (db : Db) (s x : IntraBlockState) : Type 0 where
  pub objects : (a : Address) → SameObject (db.read_account a) (s.objects a) (x.objects a)
  pub slots : (a : Address) (key : ℕ) (b : Bool) → slot db x a key b ≡ slot db s a key b
  pub incarnations : (a : Address) → x.incarnations a ≡ s.incarnations a
  pub existing_code : (h : ℕ) → (s.existing_code h ≡ none) ⊎ (x.existing_code h ≡ s.existing_code h)
  pub new_code : (h : ℕ) → (s.new_code h ≡ none) ⊎ (x.new_code h ≡ s.new_code h)
  pub self_destructs : (a : Address) → x.self_destructs a ≡ s.self_destructs a
  pub touched : (a : Address) → a ≢ ripemd_address → x.touched a ≡ s.touched a
  pub ripemd : s.touched ripemd_address ≡ true → x.touched ripemd_address ≡ true
  pub addresses : (a : Address) → x.accessed_addresses a ≡ s.accessed_addresses a
  pub keys : (a : Address) (key : ℕ) → accessed x a key ≡ accessed s a key

pub SameObject-refl : (read : Result (Option Account)) (o : Option Object) → SameObject read o o
SameObject-refl read none = inl refl
SameObject-refl read (some o) = refl

pub SameObject-trans :
    (read : Result (Option Account)) (o p q : Option Object)
    → SameObject read o p
    → SameObject read p q
    → SameObject read o q
SameObject-trans read (some o) (some p) q h k = k ∙ h
SameObject-trans read (some o) none q h k = cc
SameObject-trans read none none q h k = k
SameObject-trans read none (some p) q (inl e) k = cc
SameObject-trans read none (some p) q (inr (account, r, e)) k = inr (account, r, k ∙ e)

pub had_initial-SameObject :
    (read : Result (Option Account)) (o p : Option Object)
    → SameObject read o p
    → had_initial read p ≡ had_initial read o
had_initial-SameObject read (some o) p h = rw h
had_initial-SameObject read none p (inl e) = rw e
had_initial-SameObject read none p (inr (account, r, e)) = rw (e, r)

pub Extends-refl : (db : Db) (s : IntraBlockState) → Extends db s s
Extends-refl db s = record {
  objects = λ a. SameObject-refl _ _;
  slots = λ a key b. refl;
  incarnations = λ a. refl;
  existing_code = λ h. inr refl;
  new_code = λ h. inr refl;
  self_destructs = λ a. refl;
  touched = λ a h. refl;
  ripemd = λ h. h;
  addresses = λ a. refl;
  keys = λ a key. refl;
}

kept_trans {ℓ} :
    {A : Type ℓ} (o p q : Option A)
    → (o ≡ none) ⊎ (p ≡ o)
    → (p ≡ none) ⊎ (q ≡ p)
    → (o ≡ none) ⊎ (q ≡ o)
kept_trans o p q (inl e) k = inl e
kept_trans o p q (inr e) (inl n) = inl (sym e ∙ n)
kept_trans o p q (inr e) (inr f) = inr (f ∙ e)

pub Extends-trans :
    (db : Db) (s t u : IntraBlockState) → Extends db s t → Extends db t u → Extends db s u
Extends-trans db s t u h k = record {
  objects = λ a. SameObject-trans _ _ _ _ (h.objects a) (k.objects a);
  slots = λ a key b. k.slots a key b ∙ h.slots a key b;
  incarnations = λ a. k.incarnations a ∙ h.incarnations a;
  existing_code = λ c. kept_trans _ _ _ (h.existing_code c) (k.existing_code c);
  new_code = λ c. kept_trans _ _ _ (h.new_code c) (k.new_code c);
  self_destructs = λ a. k.self_destructs a ∙ h.self_destructs a;
  touched = λ a n. k.touched a n ∙ h.touched a n;
  ripemd = λ e. k.ripemd (h.ripemd e);
  addresses = λ a. k.addresses a ∙ h.addresses a;
  keys = λ a key. k.keys a key ∙ h.keys a key;
}

-- The fields that the values of accounts and slots do not depend on.
abbrev pub with_others : Set → Set → Set → Map Set → List Delta → IntraBlockState → IntraBlockState
with_others self_destructs touched addresses keys journal s = record s {
  self_destructs = self_destructs;
  touched = touched;
  accessed_addresses = addresses;
  accessed_storage_keys = keys;
  journal = journal;
}

-- Changes of those fields alone need a comparison of those fields alone.
pub Extends-others :
    (db : Db) (s x : IntraBlockState) (d d' t t' a a' : Set) (k k' : Map Set) (j j' : List Delta)
    → Extends db s x
    → ((b : Address) → d' b ≡ d b)
    → ((b : Address) → b ≢ ripemd_address → t' b ≡ t b)
    → (t ripemd_address ≡ true → t' ripemd_address ≡ true)
    → ((b : Address) → a' b ≡ a b)
    → ((b : Address) (key : ℕ) → unwrap_or no_element (k' b) key ≡ unwrap_or no_element (k b) key)
    → Extends db (with_others d t a k j s) (with_others d' t' a' k' j' x)
unfolding slot
Extends-others db s x d d' t t' a a' k k' j j' e hd ht hr ha hk = record {
  objects = e.objects;
  slots = e.slots;
  incarnations = e.incarnations;
  existing_code = e.existing_code;
  new_code = e.new_code;
  self_destructs = hd;
  touched = ht;
  ripemd = hr;
  addresses = ha;
  keys = hk;
}

-- The two maps of code.
abbrev pub with_code : Map Bytes → Map Bytes → IntraBlockState → IntraBlockState
with_code existing added s = record s { existing_code = existing; new_code = added }

-- Code under a new hash changes nothing that was there.
pub Extends-code :
    (db : Db) (s : IntraBlockState) (existing added : Map Bytes)
    → ((h : ℕ) → (s.existing_code h ≡ none) ⊎ (existing h ≡ s.existing_code h))
    → ((h : ℕ) → (s.new_code h ≡ none) ⊎ (added h ≡ s.new_code h))
    → Extends db s (with_code existing added s)
unfolding slot
Extends-code db s existing added he ha =
    let e = Extends-refl db s in
    record {
      objects = e.objects;
      slots = e.slots;
      incarnations = e.incarnations;
      existing_code = he;
      new_code = ha;
      self_destructs = e.self_destructs;
      touched = e.touched;
      ripemd = e.ripemd;
      addresses = e.addresses;
      keys = e.keys;
    }
