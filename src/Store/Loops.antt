-- ===== src/Store/Loops.antt =====
-- What the loop over the accounts in `write_to_db` leaves, and the shared forms of these loops.
use martinez.Base.{
  ℕ, Bool, true, false, ◌||◌, Option, none, some, List, [], ◌∷◌, ◌≡◌, refl, ap, ◌∙◌, ◌==◌, ==-self,
  if◌then◌else◌, ltb, inl, inr, Option-cases, at_key,
}
use martinez.State.Types.{Address, Account, Object, Storage, CommittedValue, IntraBlockState}
use martinez.Store.Types.{InMemoryState}
use martinez.Store.Updates.{update_account}
use martinez.Store.Write.{in_memory, write_object, object_loop}

abbrev pub listed : ℕ → List ℕ → Bool
listed a [] = false
listed a (b ∷ rest) = b == a || listed a rest

abbrev pub written_account : Option Object → Option Account → Option Account
written_account none account = account
written_account (some o) account = o.current

abbrev pub is_erased : Option ℕ → Bool
is_erased none = false
is_erased (some incarnation) = ltb 0 incarnation

abbrev pub nonzero : ℕ → Option ℕ
nonzero v = if v == 0 then none else some v

abbrev pub written_slot : Option CommittedValue → Option ℕ → Option ℕ
written_slot none slot = slot
written_slot (some c) slot = nonzero c.original

-- The committed value that is written, if there is one.
abbrev pub committed_of : Option Storage → Option Object → ℕ → Option CommittedValue
committed_of none object key = none
committed_of (some storage) none key = none
committed_of (some storage) (some o) key = elim o.current [
  | none ↦ none
  | some _ ↦ storage.committed key
]

-- A write at one of the keys, and then at the rest of them.
pub settled :
    {A : Type 0} (W : A → A) (v : A) (c d : Bool)
    → W (W v) ≡ W v
    → (if d then W (if c then W v else v) else (if c then W v else v)) ≡ (if c || d then W v else v)
settled W v true true idem = idem
settled W v true false idem = refl
settled W v false true idem = refl
settled W v false false idem = refl

module _ (s : IntraBlockState) where
  write_object-accounts :
      (b : Address) (x : InMemoryState) (a : Address)
      → (write_object in_memory s b (s.objects b) x).accounts a
        ≡ (if b == a then written_account (s.objects a) (x.accounts a) else x.accounts a)
  unfolding update_account
  write_object-accounts b x =
      at_key
        (λ a.
          (write_object in_memory s b (s.objects b) x).accounts a
          ≡ (if b == a then written_account (s.objects a) (x.accounts a) else x.accounts a))
        b
        (elim (Option-cases (s.objects b)) [
          | inl vacant ↦ rw (vacant, ==-self) refl
          | inr (o, there) ↦ rw (there, ==-self) refl
        ])
        (λ j other. elim (Option-cases (s.objects b)) [
          | inl vacant ↦ rw (vacant, other) refl
          | inr (o, there) ↦ rw (there, other) refl
        ])

  written_twice :
      (o : Option Object) (v : Option Account)
      → written_account o (written_account o v) ≡ written_account o v
  written_twice none v = refl
  written_twice (some o) v = refl

  pub object_loop-accounts :
      (order : List Address) (x : InMemoryState) (a : Address)
      → (object_loop in_memory s order x).accounts a
        ≡ (if listed a order then written_account (s.objects a) (x.accounts a) else x.accounts a)
  unfolding object_loop
  object_loop-accounts [] x a = refl
  object_loop-accounts (b ∷ rest) x a =
      object_loop-accounts rest (write_object in_memory s b (s.objects b) x) a
      ∙ ap (λ v. if listed a rest then written_account (s.objects a) v else v)
          (write_object-accounts b x a)
      ∙ settled (written_account (s.objects a)) (x.accounts a) (b == a) (listed a rest)
          (written_twice (s.objects a) (x.accounts a))

  write_object-storage :
      (b : Address) (o : Option Object) (x : InMemoryState)
      → (write_object in_memory s b o x).storage ≡ x.storage
  unfolding update_account
  write_object-storage b none x = refl
  write_object-storage b (some o) x = refl

  pub object_loop-storage :
      (order : List Address) (x : InMemoryState)
      → (object_loop in_memory s order x).storage ≡ x.storage
  unfolding object_loop
  object_loop-storage [] x = refl
  object_loop-storage (b ∷ rest) x =
      object_loop-storage rest (write_object in_memory s b (s.objects b) x)
      ∙ write_object-storage b (s.objects b) x
