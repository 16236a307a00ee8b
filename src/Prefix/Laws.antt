-- ===== src/Prefix/Laws.antt =====
-- The set answers as its keys do.
use martinez.Base.{
  ◌≡◌, refl, ap, Bool, true, false, ◌||◌, List, [], ◌∷◌, arith, inl, inr, Bool-cases,
}
use martinez.Prefix.Types.{Bytes, le, PrefixSet, new, has_prefix, insert, first_from, contains}

le_total : (a b : Bytes) → le a b ≡ false → le b a ≡ true
le_total [] b h = absurd (cc)
le_total (x ∷ a) [] h = refl
le_total (x ∷ a) (y ∷ b) h = let ih = le_total a b in ground arith

le_antisym : (a b : Bytes) → le a b ≡ true → le b a ≡ true → a ≡ b
le_antisym [] [] h k = refl
le_antisym [] (y ∷ b) h k = absurd (cc)
le_antisym (x ∷ a) [] h k = absurd (cc)
le_antisym (x ∷ a) (y ∷ b) h k =
    let same : x ≡ y = ground arith in
    let a_b : le a b ≡ true = ground arith in
    let b_a : le b a ≡ true = ground arith in λ i. same i ∷ le_antisym a b a_b b_a i

le_trans : (a b c : Bytes) → le a b ≡ true → le b c ≡ true → le a c ≡ true
le_trans [] b c h k = refl
le_trans (x ∷ a) [] c h k = absurd (cc)
le_trans (x ∷ a) (y ∷ b) [] h k = absurd (cc)
le_trans (x ∷ a) (y ∷ b) (z ∷ c) h k = let ih = le_trans a b c in ground arith

has_prefix-le : (s prefix : Bytes) → has_prefix s prefix ≡ true → le prefix s ≡ true
unfolding has_prefix
has_prefix-le s [] h = refl
has_prefix-le [] (p ∷ prefix) h = absurd (cc)
has_prefix-le (x ∷ s) (p ∷ prefix) h = let ih = has_prefix-le s prefix in ground arith

-- A key between a prefix and a key that has it has it too.
between :
    (prefix k r : Bytes)
    → le prefix k ≡ true
    → le k r ≡ true
    → has_prefix r prefix ≡ true
    → has_prefix k prefix ≡ true
unfolding has_prefix
between [] k r h₁ h₂ h = refl
between (p ∷ prefix) [] r h₁ h₂ h = absurd (cc)
between (p ∷ prefix) (y ∷ k) [] h₁ h₂ h = absurd (cc)
between (p ∷ prefix) (y ∷ k) (z ∷ r) h₁ h₂ h = let ih = between prefix k r in ground arith

abbrev AllAbove : Bytes → PrefixSet → Type 0
AllAbove k [] = Unit
AllAbove k (r ∷ rest) = (le k r ≡ true) × AllAbove k rest

abbrev IsSorted : PrefixSet → Type 0
IsSorted [] = Unit
IsSorted (k ∷ rest) = AllAbove k rest × IsSorted rest

-- Some key has the prefix.
abbrev pub any_has : Bytes → List Bytes → Bool
any_has prefix [] = false
any_has prefix (k ∷ rest) = has_prefix k prefix || any_has prefix rest

AllAbove-trans : (j k : Bytes) (set : PrefixSet) → le j k ≡ true → AllAbove k set → AllAbove j set
AllAbove-trans j k [] h all = tt
AllAbove-trans j k (r ∷ rest) h (first, all) =
    (le_trans j k r h first, AllAbove-trans j k rest h all)

insert-AllAbove :
    (j key : Bytes) (set : PrefixSet)
    → le j key ≡ true
    → AllAbove j set
    → AllAbove j (insert key set)
unfolding insert
insert-AllAbove j key [] h all = (h, tt)
insert-AllAbove j key (k ∷ rest) h (first, all) = elim (Bool-cases (le key k)) [
  | inr after ↦ rw after (first, insert-AllAbove j key rest h all)
  | inl before ↦ elim (Bool-cases (le k key)) [
    | inl same ↦ rw (before, same) (first, all)
    | inr new_key ↦ rw (before, new_key) (h, (first, all))
  ]
]

insert-IsSorted : (key : Bytes) (set : PrefixSet) → IsSorted set → IsSorted (insert key set)
unfolding insert
insert-IsSorted key [] s = (tt, tt)
insert-IsSorted key (k ∷ rest) (above, s) = elim (Bool-cases (le key k)) [
  | inr after ↦
      rw after (insert-AllAbove k key rest (le_total key k after) above, insert-IsSorted key rest s)
  | inl before ↦ elim (Bool-cases (le k key)) [
    | inl same ↦ rw (before, same) (above, s)
    | inr new_key ↦
        rw (before, new_key) ((before, AllAbove-trans key k rest before above), (above, s))
  ]
]

any_has-insert :
    (prefix key : Bytes) (set : PrefixSet)
    → any_has prefix (insert key set) ≡ (has_prefix key prefix || any_has prefix set)
unfolding insert
any_has-insert prefix key [] = refl
any_has-insert prefix key (k ∷ rest) = elim (Bool-cases (le key k)) [
  | inr after ↦ let ih = any_has-insert prefix key rest in rw after (ground (arith, ih))
  | inl before ↦ elim (Bool-cases (le k key)) [
    | inl same ↦
        let equal = ap (λ b. has_prefix b prefix) (le_antisym key k before same) in
        rw (before, same) (ground (arith, equal))
    | inr new_key ↦ rw (before, new_key) refl
  ]
]

-- If the first key from the prefix on lacks it, all later ones do.
none_later :
    (prefix k : Bytes) (set : PrefixSet)
    → le prefix k ≡ true
    → AllAbove k set
    → has_prefix k prefix ≡ false
    → any_has prefix set ≡ false
none_later prefix k [] h above lacks = refl
none_later prefix k (r ∷ rest) h (first, above) lacks =
    let later = none_later prefix k rest h above lacks in
    let has = between prefix k r h first in ground (arith, later, has)

contains-IsSorted :
    (prefix : Bytes) (set : PrefixSet) → IsSorted set → contains prefix set ≡ any_has prefix set
unfolding contains first_from
contains-IsSorted prefix [] s = refl
contains-IsSorted prefix (k ∷ rest) (above, s) = elim (Bool-cases (le prefix k)) [
  | inl from ↦
      let none_then = none_later prefix k rest from above in rw from (ground (arith, none_then))
  | inr below ↦
      let ih = contains-IsSorted prefix rest s in
      let lacks = has_prefix-le k prefix in rw below (ground (arith, ih, lacks))
]

-- The set that the keys are inserted into, one after the other.
abbrev pub insert_all : List Bytes → PrefixSet → PrefixSet
insert_all [] set = set
insert_all (key ∷ rest) set = insert_all rest (insert key set)

insert_all-contains :
    (prefix : Bytes) (keys : List Bytes) (set : PrefixSet)
    → IsSorted set
    → contains prefix (insert_all keys set) ≡ (any_has prefix keys || any_has prefix set)
insert_all-contains prefix [] set s = contains-IsSorted prefix set s
insert_all-contains prefix (key ∷ rest) set s =
    let ih = insert_all-contains prefix rest (insert key set) (insert-IsSorted key set s) in
    let one = any_has-insert prefix key set in ground (arith, ih, one)

-- After any keys were inserted in any order, also twice, the set answers for a prefix whether one of
-- the keys has it, although it looks at a single key.
pub contains-insert :
    (prefix : Bytes) (keys : List Bytes)
    → contains prefix (insert_all keys new) ≡ any_has prefix keys
contains-insert prefix keys =
    let all = insert_all-contains prefix keys new tt in ground (arith, all)
