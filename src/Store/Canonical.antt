-- ===== src/Store/Canonical.antt =====
-- The canonical chain in memory after a block is made canonical, and after it is cut.
use martinez.Base.{
  ℕ, zero, suc, ◌≤◌, ◌<◌, ◌≡◌, Option, none, some, List, [], ◌∷◌, if◌then◌else◌, ◌==◌, ltb, leb,
  unwrap_or, length, take, get_elem?, resize, arith, inl, inr, Bool-cases,
}
use martinez.Store.Types.{InMemoryState}
use martinez.Store.Blocks.{change_at, canonical_hash, canonize_block, decanonize_block}

-- What is found in a list that has the value at one index, and zeros up to it.
abbrev put : ℕ → ℕ → List ℕ → ℕ → Option ℕ
put b h xs k =
    if b == k
    then some h
    else if ltb k b
    then some (unwrap_or 0 (get_elem? xs k))
    else get_elem? xs k

get-take :
    (b k : ℕ) (xs : List ℕ) → get_elem? (take b xs) k ≡ (if ltb k b then get_elem? xs k else none)
get-take zero k xs = ground arith
get-take (suc b) k [] = ground arith
get-take (suc b) zero (x ∷ xs) = ground arith
get-take (suc b) (suc k) (x ∷ xs) = let ih = get-take b k xs in ground (arith, ih)

get-long :
    (b h k : ℕ) (xs : List ℕ)
    → b < length xs
    → get_elem? (change_at b (λ old. h) xs) k ≡ put b h xs k
get-long b h k [] l = absurd (omega (arith, l))
get-long zero h zero (x ∷ xs) l = ground arith
get-long zero h (suc k) (x ∷ xs) l = ground arith
get-long (suc b) h zero (x ∷ xs) l = ground arith
get-long (suc b) h (suc k) (x ∷ xs) l =
    let ih = get-long b h k xs (omega arith) in ground (arith, ih)

get-short :
    (b h k : ℕ) (xs : List ℕ)
    → length xs ≤ b
    → get_elem? (change_at b (λ old. h) (resize (suc b) 0 xs)) k ≡ put b h xs k
get-short zero h zero [] l = ground arith
get-short zero h (suc k) [] l = ground arith
get-short zero h k (x ∷ xs) l = absurd (omega (arith, l))
get-short (suc b) h zero [] l = ground arith
get-short (suc b) h (suc k) [] l = let ih = get-short b h k [] (omega arith) in ground (arith, ih)
get-short (suc b) h zero (x ∷ xs) l = ground arith
get-short (suc b) h (suc k) (x ∷ xs) l =
    let ih = get-short b h k xs (omega arith) in ground (arith, ih)

-- Making a block canonical puts its hash at its number, keeps the hashes at other numbers, and leaves
-- a zero at each number below that had none; cutting the chain at a number removes the hashes from
-- that number on and keeps the others.
pub canonical_hash_lem :
    (m : InMemoryState) (block_number block_hash k : ℕ)
    → (canonical_hash (canonize_block block_number block_hash m) k ≡ (
        if block_number == k
        then some block_hash
        else if ltb k block_number
        then some (unwrap_or 0 (canonical_hash m k))
        else canonical_hash m k))
      × (canonical_hash (decanonize_block block_number m) k
          ≡ (if ltb k block_number then canonical_hash m k else none))
unfolding canonical_hash canonize_block decanonize_block
canonical_hash_lem m b h k = (
  elim (Bool-cases (leb (length m.canonical_hashes) b)) [
    | inl short ↦ rw short (get-short b h k m.canonical_hashes (ground (arith, short)))
    | inr long ↦ rw long (get-long b h k m.canonical_hashes (ground (arith, long)))
  ],
  get-take b k m.canonical_hashes,
)
