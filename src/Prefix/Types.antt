-- ===== src/Prefix/Types.antt =====
-- trie/prefix_set.rs and trie/util.rs. The keys of the `BTreeSet` are listed in its order, which is
-- that of the bytes from the first on.
use martinez.Base.{
  ℕ, suc, Bool, true, false, ◌&&◌, ◌||◌, Option, none, some, List, [], ◌∷◌, ltb, ◌==◌,
  if◌then◌else◌,
}

abbrev pub Bytes : Type 0
Bytes = List ℕ

-- The order of `Vec<u8>`.
abbrev pub le : Bytes → Bytes → Bool
le [] ys = true
le (x ∷ xs) [] = false
le (x ∷ xs) (y ∷ ys) = ltb x y || ((x == y) && le xs ys)

abbrev pub PrefixSet : Type 0
PrefixSet = List Bytes

abbrev pub new : PrefixSet
new = []

-- `starts_with`
unfoldable pub has_prefix : Bytes → Bytes → Bool
has_prefix s [] = true
has_prefix [] (p ∷ prefix) = false
has_prefix (x ∷ s) (p ∷ prefix) = (x == p) && has_prefix s prefix

-- The length of what two keys have in common.
unfoldable pub prefix_length : Bytes → Bytes → ℕ
prefix_length [] b = 0
prefix_length (x ∷ a) [] = 0
prefix_length (x ∷ a) (y ∷ b) = let rest = prefix_length a b in if x == y then suc rest else 0

-- A key that is there is kept.
unfoldable pub insert : Bytes → PrefixSet → PrefixSet
insert key [] = key ∷ []
insert key (k ∷ rest) =
    let later = insert key rest in
    if le key k then (if le k key then k ∷ rest else key ∷ k ∷ rest) else k ∷ later

-- `range(prefix..).next()`
unfoldable pub first_from : Bytes → PrefixSet → Option Bytes
first_from prefix [] = none
first_from prefix (k ∷ rest) =
    let later = first_from prefix rest in if le prefix k then some k else later

abbrev pub starts : Bytes → Option Bytes → Bool
starts prefix none = false
starts prefix (some s) = has_prefix s prefix

unfoldable pub contains : Bytes → PrefixSet → Bool
contains prefix set = starts prefix (first_from prefix set)
