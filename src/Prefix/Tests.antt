-- ===== src/Prefix/Tests.antt =====
-- The test of trie/prefix_set.rs.
use martinez.Base.{true, false, List, [], ◌∷◌, ◌≡◌, refl}
use martinez.Prefix.Types.{
  Bytes, PrefixSet, new, has_prefix, prefix_length, insert, first_from, contains,
}
use martinez.Prefix.Laws.{any_has, insert_all, contains-insert}

abbrev abc : Bytes
abc = b'a' ∷ b'b' ∷ b'c' ∷ []

abbrev keys : List Bytes
keys = abc ∷ (b'f' ∷ b'g' ∷ []) ∷ abc ∷ (b'a' ∷ b'b' ∷ []) ∷ []

abbrev set : PrefixSet
set = insert_all keys new

has_ab : contains (b'a' ∷ b'b' ∷ []) set ≡ true
unfolding contains first_from has_prefix insert
has_ab = refl

lacks_aac : contains (b'a' ∷ b'a' ∷ b'c' ∷ []) set ≡ false
unfolding contains first_from has_prefix insert
lacks_aac = refl

shared : prefix_length abc (b'a' ∷ b'b' ∷ b'd' ∷ []) ≡ 2
unfolding prefix_length
shared = refl

contains-insert_example : contains (b'f' ∷ []) (insert_all keys new) ≡ any_has (b'f' ∷ []) keys
contains-insert_example = contains-insert (b'f' ∷ []) keys
