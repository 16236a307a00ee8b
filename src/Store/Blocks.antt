-- ===== src/Store/Blocks.antt =====
-- state/in_memory_state.rs: the blocks that are kept, and the canonical chain.
use martinez.Base.{
  ℕ, zero, suc, ◌+◌, ◌-◌, ◌%◌, ◌^◌, Option, List, [], ◌∷◌, if◌then◌else◌, leb, Map, no_key, insert,
  unwrap_or, length, take, get_elem?, resize, Result, ok,
}
use martinez.Consensus.Types.{BlockHeader}
use martinez.Store.Types.{Block, BlockBody, InMemoryState}

-- The element at an index, which is there, is changed.
abbrev pub change_at {ℓ} : {A : Type ℓ} → ℕ → (A → A) → List A → List A
change_at n f [] = []
change_at zero f (x ∷ xs) = f x ∷ xs
change_at (suc n) f (x ∷ xs) = x ∷ change_at n f xs

-- `if len() <= n { resize_with(n + 1, default) }`
abbrev pub grow {ℓ} : {A : Type ℓ} → ℕ → A → List A → List A
grow n default xs = if leb (length xs) n then resize (suc n) default xs else xs

-- What is found under a number and a hash.
abbrev pub entry {ℓ} : {V : Type ℓ} → List (Map V) → ℕ → ℕ → Option V
entry xs n hash = unwrap_or no_key (get_elem? xs n) hash

unfoldable pub read_header : InMemoryState → ℕ → ℕ → Result (Option BlockHeader)
read_header m block_number block_hash = ok (entry m.headers block_number block_hash)

unfoldable pub read_body : InMemoryState → ℕ → ℕ → Result (Option BlockBody)
read_body m block_number block_hash = ok (entry m.bodies block_number block_hash)

unfoldable pub total_difficulty : InMemoryState → ℕ → ℕ → Result (Option ℕ)
total_difficulty m block_number block_hash = ok (entry m.difficulty block_number block_hash)

-- `*entry(parent_hash).or_default()`: the value, and what it leaves in the map.
abbrev pub or_default : ℕ → Map ℕ → Map ℕ
or_default key values = insert key (unwrap_or 0 (values key)) values

-- The totals before the block's own is put there, and that of its parent.
abbrev pub with_parent : ℕ → ℕ → List (Map ℕ) → List (Map ℕ)
with_parent zero parent_hash totals = totals
with_parent (suc n) parent_hash totals = change_at n (or_default parent_hash) totals

abbrev pub parent_total : ℕ → ℕ → List (Map ℕ) → ℕ
parent_total zero parent_hash totals = 0
parent_total (suc n) parent_hash totals = unwrap_or 0 (entry totals n parent_hash)

unfoldable pub insert_block : Block → ℕ → InMemoryState → InMemoryState
insert_block block hash m =
    let n = block.header.number in
    let parent_hash = block.header.parent_hash in
    let totals = grow n no_key m.difficulty in
    let d = (parent_total n parent_hash totals + block.header.difficulty) % 2 ^ 256 in
    record m {
      headers = change_at n (insert hash block.header) (grow n no_key m.headers);
      bodies =
          change_at n
            (insert hash (record { transactions = block.transactions; ommers = block.ommers }))
            (grow n no_key m.bodies);
      difficulty = change_at n (insert hash d) (with_parent n parent_hash totals);
    }

unfoldable pub canonical_hash : InMemoryState → ℕ → Option ℕ
canonical_hash m block_number = get_elem? m.canonical_hashes block_number

-- `len() - 1` on u64, which wraps around in an empty chain.
unfoldable pub current_canonical_block : InMemoryState → ℕ
current_canonical_block m = (length m.canonical_hashes + (2 ^ 64 - 1)) % 2 ^ 64

unfoldable pub canonize_block : ℕ → ℕ → InMemoryState → InMemoryState
canonize_block block_number block_hash m = record m {
  canonical_hashes =
      change_at block_number (λ old. block_hash) (grow block_number 0 m.canonical_hashes);
}

unfoldable pub decanonize_block : ℕ → InMemoryState → InMemoryState
decanonize_block block_number m = record m {
  canonical_hashes = take block_number m.canonical_hashes;
}
