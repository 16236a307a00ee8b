-- ===== src/Store/Chain.antt =====
-- What the blocks in memory and the canonical chain are after a change.
use martinez.Base.{
  ℕ, zero, suc, ◌+◌, ◌%◌, ◌^◌, ◌<◌, ◌≤◌, length-resize, ◌≡◌, refl, ap, ◌∙◌, sym, subst, ==_iff,
  ◌&&◌, Bool, true, false, some, List, [], ◌∷◌, if◌then◌else◌, ◌==◌, leb, Map, no_key, insert,
  unwrap_or, length, get_elem?, resize, Result, ok, arith, inl, inr, Bool-cases,
}
use martinez.Store.Types.{Block, InMemoryState}
use martinez.Store.Blocks.{
  change_at, grow, entry, read_header, read_body, total_difficulty, or_default, with_parent,
  parent_total, insert_block,
}

==-suc : (n k : ℕ) → (n == k) ≡ (suc n == suc k)
==-suc n k = ground arith

module _ {ℓ} {A : Type ℓ} where
  -- What the new places hold is what a missing place is read as.
  get-resize :
      (n k : ℕ) (d : A) (xs : List A)
      → length xs ≤ n
      → unwrap_or d (get_elem? (resize n d xs) k) ≡ unwrap_or d (get_elem? xs k)
  get-resize zero k d [] h = refl
  get-resize zero k d (x ∷ xs) h = absurd (omega (arith, h))
  get-resize (suc n) zero d [] h = refl
  get-resize (suc n) (suc k) d [] h = get-resize n k d [] (omega arith)
  get-resize (suc n) zero d (x ∷ xs) h = refl
  get-resize (suc n) (suc k) d (x ∷ xs) h = get-resize n k d xs (omega arith)

  get-grow :
      (n k : ℕ) (d : A) (xs : List A)
      → unwrap_or d (get_elem? (grow n d xs) k) ≡ unwrap_or d (get_elem? xs k)
  get-grow n k d xs = elim (Bool-cases (leb (length xs) n)) [
    | inl short ↦
        let fits : length xs ≤ suc n = ground (arith, short) in
        rw short (get-resize (suc n) k d xs fits)
    | inr long ↦ rw long refl
  ]

  length-grow : (n : ℕ) (d : A) (xs : List A) → n < length (grow n d xs)
  length-grow n d xs = elim (Bool-cases (leb (length xs) n)) [
    | inl short ↦ rw short (omega (arith, length-resize (suc n) d xs))
    | inr long ↦ rw long (ground (arith, long))
  ]

  get-change_at :
      (n k : ℕ) (d : A) (f : A → A) (xs : List A)
      → n < length xs
      → unwrap_or d (get_elem? (change_at n f xs) k)
        ≡ (if n == k then f (unwrap_or d (get_elem? xs k)) else unwrap_or d (get_elem? xs k))
  get-change_at n k d f [] h = absurd (omega (arith, h))
  get-change_at zero zero d f (x ∷ xs) h = refl
  get-change_at zero (suc k) d f (x ∷ xs) h = ground arith
  get-change_at (suc n) zero d f (x ∷ xs) h = ground arith
  get-change_at (suc n) (suc k) d f (x ∷ xs) h =
      get-change_at n k d f xs (omega arith)
      ∙ ap (λ b. if b then f (unwrap_or d (get_elem? xs k)) else unwrap_or d (get_elem? xs k))
          (==-suc n k)

  length-change_at : (n : ℕ) (f : A → A) (xs : List A) → length (change_at n f xs) ≡ length xs
  length-change_at n f [] = refl
  length-change_at zero f (x ∷ xs) = refl
  length-change_at (suc n) f (x ∷ xs) = ap suc (length-change_at n f xs)

module _ {ℓ} {V : Type ℓ} where
  -- An entry that is put into the maps.
  entry-put :
      (n k key hash : ℕ) (v : V) (xs : List (Map V))
      → n < length xs
      → entry (change_at n (insert key v) xs) k hash
        ≡ (if (n == k) && (key == hash) then some v else entry xs k hash)
  entry-put n k key hash v xs h =
      ap (λ (found : Map V). found hash) (get-change_at n k no_key (insert key v) xs h)
      ∙ at_entry (n == k)
    where
      at_entry :
          (b : Bool)
          → (if b
                then insert key v (unwrap_or no_key (get_elem? xs k))
                else unwrap_or no_key (get_elem? xs k))
              hash
            ≡ (if b && (key == hash) then some v else entry xs k hash)
      at_entry true = refl
      at_entry false = refl

  entry-grow :
      (n k hash : ℕ) (xs : List (Map V)) → entry (grow n no_key xs) k hash ≡ entry xs k hash
  entry-grow n k hash xs = ap (λ (found : Map V). found hash) (get-grow n k no_key xs)

ok_if {ℓ} :
    {A : Type ℓ} (b : Bool) (x y : A)
    → ◌≡◌ {A = Result A} (ok (if b then x else y)) (if b then ok x else ok y)
ok_if true x y = refl
ok_if false x y = refl

inserted {ℓ} :
    {V : Type ℓ} (n k hash h : ℕ) (v : V) (xs : List (Map V))
    → ok (entry (change_at n (insert hash v) (grow n no_key xs)) k h)
      ≡ (if (n == k) && (hash == h) then ok (some v) else ok (entry xs k h))
inserted n k hash h v xs =
    ap ok (entry-put n k hash h v (grow n no_key xs) (length-grow n no_key xs))
    ∙ ok_if ((n == k) && (hash == h)) (some v) (entry (grow n no_key xs) k h)
    ∙ ap (λ found. if (n == k) && (hash == h) then ok (some v) else ok found) (entry-grow n k h xs)

length-with_parent :
    (n parent : ℕ) (xs : List (Map ℕ)) → length (with_parent n parent xs) ≡ length xs
length-with_parent zero parent xs = refl
length-with_parent (suc n) parent xs = length-change_at n (or_default parent) xs

entry-with_parent :
    (n k parent h : ℕ) (xs : List (Map ℕ))
    → n < length xs
    → entry (with_parent n parent xs) k h
      ≡ (if (n == suc k) && (parent == h) then some (unwrap_or 0 (entry xs k h)) else entry xs k h)
entry-with_parent zero k parent h xs fits = ground arith
entry-with_parent (suc n) k parent h xs fits =
    ap (λ (found : Map ℕ). found h) (get-change_at n k no_key (or_default parent) xs (omega arith))
    ∙ at_entry (n == k) (entry xs k)
    ∙ ap (λ b. if b && (parent == h) then some (unwrap_or 0 (entry xs k h)) else entry xs k h)
        (==-suc n k)
  where
    at_entry :
        (b : Bool) (found : Map ℕ)
        → (if b then or_default parent found else found) h
          ≡ (if b && (parent == h) then some (unwrap_or 0 (found h)) else found h)
    at_entry false found = refl
    at_entry true found = elim (Bool-cases (parent == h)) [
      | inl same ↦ rw same (ap (λ j. some (unwrap_or 0 (found j))) ((==_iff parent h).0 same))
      | inr other ↦ rw other refl
    ]

parent_total-grow :
    (n parent : ℕ) (xs : List (Map ℕ))
    → parent_total n parent (grow n no_key xs) ≡ parent_total n parent xs
parent_total-grow zero parent xs = refl
parent_total-grow (suc n) parent xs = ap (unwrap_or 0) (entry-grow (suc n) n parent xs)

choices {ℓ} :
    {A : Type ℓ} (b c : Bool) (x w y z : A)
    → w ≡ (if c then y else z)
    → ok (if b then x else w) ≡ (if b then ok x else if c then ok y else ok z)
choices true c x w y z e = refl
choices false c x w y z e = ap ok e ∙ ok_if c y z

-- After a block is inserted, its header and body are found under its number and hash, its total
-- difficulty is its own plus its parent's, wrapped to 256 bits and with zero for a parent that has
-- none, and nothing else is found otherwise than before; but a parent without a total now has zero.
pub insert_block_lem :
    (m : InMemoryState) (block : Block) (hash k h : ℕ)
    → (read_header (insert_block block hash m) k h ≡ (
        if (block.header.number == k) && (hash == h)
        then ok (some block.header)
        else read_header m k h))
      × (read_body (insert_block block hash m) k h ≡ (
          if (block.header.number == k) && (hash == h)
          then ok (some (record { transactions = block.transactions; ommers = block.ommers }))
          else read_body m k h))
      × (total_difficulty (insert_block block hash m) k h ≡ (
          if (block.header.number == k) && (hash == h)
          then ok (
              some (
                (parent_total block.header.number block.header.parent_hash m.difficulty
                  + block.header.difficulty)
                % 2 ^ 256))
          else if (block.header.number == suc k) && (block.header.parent_hash == h)
          then ok (some (unwrap_or 0 (entry m.difficulty k h)))
          else total_difficulty m k h))
unfolding insert_block read_header read_body total_difficulty
insert_block_lem m block hash k h =
    let n = block.header.number in
    let p = block.header.parent_hash in
    let totals : List (Map ℕ) = grow n no_key m.difficulty in
    let fits = length-grow n no_key m.difficulty in
    (
      inserted n k hash h block.header m.headers,
      inserted n k hash h _ m.bodies,
      ap ok (
            entry-put n k hash h _ (with_parent n p totals)
              (subst (λ l. n < l) (sym (length-with_parent n p totals)) fits))
          ∙ ap
              (λ t. ok (
                if (n == k) && (hash == h)
                then some ((t + block.header.difficulty) % 2 ^ 256)
                else entry (with_parent n p totals) k h))
              (parent_total-grow n p m.difficulty)
          ∙ choices ((n == k) && (hash == h)) ((n == suc k) && (p == h)) _ _ _ _ (
              entry-with_parent n k p h totals fits
              ∙ ap (λ e. if (n == suc k) && (p == h) then some (unwrap_or 0 e) else e)
                  (entry-grow n k h m.difficulty)),
    )
