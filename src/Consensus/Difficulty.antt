-- ===== src/Consensus/Difficulty.antt =====
-- consensus/ethash/difficulty.rs, and `get_delay_to` of models/chainspec.rs.
use Prim.Native.Nat.{max, min}
use martinez.Base.{
  ℕ, ◌+◌, ◌-◌, ◌*◌, ◌/◌, ◌%◌, ◌^◌, ◌≤◌, ◌<◌, Bool, true, false, Option, none, some, List, [], ◌∷◌,
  ◌≡◌, ap₂, ltb→lt, inl, inr, ltb, if◌then◌else◌, arith, Bool-cases,
}

abbrev pub min_difficulty : ℕ
min_difficulty = 131072

-- u64 subtraction, as it wraps in the production profile.
abbrev pub sub_u64 : ℕ → ℕ → ℕ
sub_u64 a b = (a + 2 ^ 64 - b) % 2 ^ 64

abbrev pub add_u256 : ℕ → ℕ → ℕ
add_u256 a b = (a + b) % 2 ^ 256

abbrev pub sub_u256 : ℕ → ℕ → ℕ
sub_u256 a b = (a + 2 ^ 256 - b) % 2 ^ 256

abbrev pub mul_u256 : ℕ → ℕ → ℕ
mul_u256 a b = a * b % 2 ^ 256

-- `difficulty -= x * 99`, then `+= (top - z) * x` if `top > z`.
abbrev pub adjusted : ℕ → ℕ → ℕ → ℕ → ℕ
adjusted difficulty x top z =
    let lowered = sub_u256 difficulty (mul_u256 x 99) in
    if ltb z top then add_u256 lowered (mul_u256 (top - z) x) else lowered

abbrev pub uncle_factor : Bool → ℕ
uncle_factor true = 2
uncle_factor false = 1

-- The difficulty before the bomb.
unfoldable pub formula : ℕ → ℕ → ℕ → Bool → Bool → Bool → ℕ
formula block_timestamp parent_difficulty parent_timestamp parent_has_uncles byzantium homestead =
    let x = parent_difficulty / 2048 in
    let elapsed = sub_u64 block_timestamp parent_timestamp in
    if byzantium
    then adjusted parent_difficulty x (99 + uncle_factor parent_has_uncles) (elapsed / 9)
    else if homestead
    then adjusted parent_difficulty x 100 (elapsed / 10)
    else if ltb elapsed 13
    then add_u256 parent_difficulty x
    else sub_u256 parent_difficulty x

-- The bomb of the number of 100000-block periods since the delay; without a delay there is none.
unfoldable pub explode : Option ℕ → ℕ → ℕ → ℕ
explode none block_number difficulty = difficulty
explode (some delay_to) block_number difficulty =
    let n = (block_number - delay_to) / 100000 in
    if ltb n 2 then difficulty else add_u256 difficulty (2 ^ (n - 2) % 2 ^ 256)

unfoldable pub canonical_difficulty : ℕ → ℕ → ℕ → ℕ → Bool → Bool → Bool → Option ℕ → ℕ
canonical_difficulty block_number block_timestamp parent_difficulty parent_timestamp
      parent_has_uncles byzantium_formula homestead_formula difficulty_bomb =
    max
      (explode difficulty_bomb block_number (
        formula block_timestamp parent_difficulty parent_timestamp parent_has_uncles
          byzantium_formula homestead_formula))
      min_difficulty

-- The delays are in the order of their keys; the last one that is active counts.
abbrev pub last_active : ℕ → List (ℕ × ℕ) → ℕ → ℕ
last_active block_number [] last = last
last_active block_number ((activation, delay_to) ∷ rest) last =
    last_active block_number rest (if ltb block_number activation then last else delay_to)

unfoldable pub get_delay_to : List (ℕ × ℕ) → ℕ → ℕ
get_delay_to delays block_number = last_active block_number delays 0

-- y steps up against z steps down, at most 99 of them: `difficulty + x * max(y - z, -99)`.
abbrev pub stepped : ℕ → ℕ → ℕ → ℕ → ℕ
stepped difficulty x y z =
    if ltb y z then difficulty - x * min (z - y) 99 else difficulty + x * (y - z)

-- The wrapped arithmetic, where nothing overflows: `a` steps of `x` back after 99 were taken.
steps_back :
    (d x a : ℕ)
    → x * 2048 ≤ d
    → d < 2 ^ 255
    → a ≤ 101
    → add_u256 (sub_u256 d (mul_u256 x 99)) (mul_u256 a x) + 99 * x ≡ d + a * x
steps_back d x a hx hd ha = let most : a * x ≤ 101 * x = grind arith in omega arith

lowered : (d x : ℕ) → x * 2048 ≤ d → d < 2 ^ 255 → sub_u256 d (mul_u256 x 99) + 99 * x ≡ d
lowered d x hx hd = omega arith

split_product : (a b c x : ℕ) → a + b ≡ c → a * x + b * x ≡ c * x
split_product a b c x h = rw (← h) (omega arith)

-- The wrapped computation of the steps is the one over the integers.
adjusted_steps :
    (d x y z : ℕ) → x * 2048 ≤ d → y ≤ 2 → d < 2 ^ 255 → adjusted d x (99 + y) z ≡ stepped d x y z
adjusted_steps d x y z hx hy hd = elim (Bool-cases (ltb y z)) [
  | inl down ↦
      let lt = ltb→lt y z down in
      elim (Bool-cases (ltb z (99 + y))) [
        | inl inside ↦
            let lt' = ltb→lt z (99 + y) inside in
            rw (down, inside)
              (omega (
                arith,
                steps_back d x (99 + y - z) hx hd (omega arith),
                split_product (99 + y - z) (min (z - y) 99) 99 x (omega arith),
              ))
        | inr beyond ↦
            let ge : 99 + y ≤ z = ground arith in
            let most : min (z - y) 99 ≡ 99 = omega arith in
            rw (down, beyond, most) (omega (arith, lowered d x hx hd))
      ]
  | inr up ↦
      let le : z ≤ y = ground arith in
      let inside : ltb z (99 + y) ≡ true = ground arith in
      rw (up, inside)
        (omega (
          arith,
          steps_back d x (99 + y - z) hx hd (omega arith),
          split_product 99 (y - z) (99 + y - z) x (omega arith),
        ))
]

-- The block is later than its parent by `elapsed` seconds, below 2^64, and the parent's difficulty
-- is below 2^255. Then the wrapped arithmetic computes the formulas of the Yellow Paper and EIP-100
-- over the integers: in steps of a 2048th of the parent's difficulty, from Byzantium on
-- max(y - elapsed / 9, -99) with y = 2 after a parent with uncles and else 1; from Homestead on
-- max(1 - elapsed / 10, -99); and before that one up, if 13 seconds have not passed, or else down.
pub formula_lem :
    (elapsed parent_difficulty parent_timestamp : ℕ) (has_uncles byzantium homestead : Bool)
    → elapsed + parent_timestamp < 2 ^ 64
    → parent_difficulty < 2 ^ 255
    → formula
        (elapsed + parent_timestamp)
        parent_difficulty
        parent_timestamp
        has_uncles
        byzantium
        homestead
      ≡ (if byzantium
          then stepped parent_difficulty
              (parent_difficulty / 2048)
              (uncle_factor has_uncles)
              (elapsed / 9)
          else if homestead
          then stepped parent_difficulty (parent_difficulty / 2048) 1 (elapsed / 10)
          else if ltb elapsed 13
          then parent_difficulty + parent_difficulty / 2048
          else parent_difficulty - parent_difficulty / 2048)
unfolding formula
formula_lem elapsed d t has_uncles byzantium homestead ht hd =
    rw difference (cases byzantium homestead)
  where
    difference : sub_u64 (elapsed + t) t ≡ elapsed
    difference = omega arith

    y_small : uncle_factor has_uncles ≤ 2
    y_small = ground arith

    cases :
        (byzantium homestead : Bool)
        → (if byzantium
            then adjusted d (d / 2048) (99 + uncle_factor has_uncles) (elapsed / 9)
            else if homestead
            then adjusted d (d / 2048) 100 (elapsed / 10)
            else if ltb elapsed 13
            then add_u256 d (d / 2048)
            else sub_u256 d (d / 2048))
          ≡ (if byzantium
              then stepped d (d / 2048) (uncle_factor has_uncles) (elapsed / 9)
              else if homestead
              then stepped d (d / 2048) 1 (elapsed / 10)
              else if ltb elapsed 13
              then d + d / 2048
              else d - d / 2048)
    cases true homestead = adjusted_steps d (d / 2048) _ (elapsed / 9) (omega arith) y_small hd
    cases false true = adjusted_steps d (d / 2048) 1 (elapsed / 10) (omega arith) (omega arith) hd
    cases false false =
        ap₂ (λ (u v : ℕ). if ltb elapsed 13 then u else v) (omega arith) (omega arith)
