-- ===== src/Consensus/Rules.antt =====
-- The fork rules for the difficulty of a header.
use martinez.Base.{
  ℕ, ◌+◌, ◌-◌, ◌/◌, ◌^◌, ◌≤◌, ◌<◌, true, false, not, Option, none, some, List, ◌≡◌, ◌≢◌, refl, sym,
  ◌⊎◌, inl, inr, leb, ◌==◌, ==_iff, arith, Bool-cases,
}
use martinez.Consensus.Types.{BlockHeader, switch_is_active}
use martinez.Consensus.Difficulty.{canonical_difficulty, get_delay_to, stepped, uncle_factor}
use martinez.Consensus.Bomb.{bomb_size, IsDelay}
use martinez.Consensus.Ommers.{empty_list_hash}
use martinez.Consensus.Blocks.{Ethash}

-- A rule holds from the block of its switch on, and never without one.
abbrev pub IsActive : Option ℕ → ℕ → Type 0
IsActive none number = ⊥
IsActive (some first) number = first ≤ number

-- The steps that the parent's uncles allow upwards.
abbrev pub HasUncleFactor : BlockHeader → ℕ → Type 0
HasUncleFactor parent y =
    ((parent.ommers_hash ≡ empty_list_hash) × (y ≡ 1))
    ⊎ ((parent.ommers_hash ≢ empty_list_hash) × (y ≡ 2))

-- The difficulty before the bomb: by EIP-100 if Byzantium's rule holds, else by that of Homestead if
-- it holds, and else a 2048th up if 13 seconds have not passed and down if they have.
pub data HasFormula (engine : Ethash) (header parent : BlockHeader) : ℕ → Type 0 where
  by_byzantium :
      {y : ℕ}
      → IsActive engine.byzantium_formula header.number
      → HasUncleFactor parent y
      → HasFormula engine header parent (
          stepped parent.difficulty
            (parent.difficulty / 2048)
            y
            ((header.timestamp - parent.timestamp) / 9))
  by_homestead :
      ¬ IsActive engine.byzantium_formula header.number
      → IsActive engine.homestead_formula header.number
      → HasFormula engine header parent (
          stepped parent.difficulty
            (parent.difficulty / 2048)
            1
            ((header.timestamp - parent.timestamp) / 10))
  up :
      ¬ IsActive engine.byzantium_formula header.number
      → ¬ IsActive engine.homestead_formula header.number
      → header.timestamp < parent.timestamp + 13
      → HasFormula engine header parent (parent.difficulty + parent.difficulty / 2048)
  down :
      ¬ IsActive engine.byzantium_formula header.number
      → ¬ IsActive engine.homestead_formula header.number
      → parent.timestamp + 13 ≤ header.timestamp
      → HasFormula engine header parent (parent.difficulty - parent.difficulty / 2048)

-- The bomb at a block: by the periods of 100000 blocks since the delay that counts.
abbrev pub HasBomb : Option (List (ℕ × ℕ)) → ℕ → ℕ → Type 0
HasBomb none number bomb = bomb ≡ 0
HasBomb (some delays) number bomb =
    (delay : ℕ) × IsDelay delays number delay × (bomb ≡ bomb_size ((number - delay) / 100000))

-- The difficulty that the engine computes of a header after the given parent.
abbrev pub engine_difficulty : Ethash → BlockHeader → BlockHeader → ℕ
engine_difficulty engine header parent =
    canonical_difficulty header.number header.timestamp parent.difficulty parent.timestamp
      (not (parent.ommers_hash == empty_list_hash))
      (switch_is_active engine.byzantium_formula header.number)
      (switch_is_active engine.homestead_formula header.number)
      (elim engine.difficulty_bomb [
        | none ↦ none
        | some delays ↦ some (get_delay_to delays header.number)
      ])

pub active : (switch : Option ℕ) (n : ℕ) → IsActive switch n → switch_is_active switch n ≡ true
unfolding switch_is_active
active none n h = absurd h
active (some first) n h = ground arith

pub inactive :
    (switch : Option ℕ) (n : ℕ)
    → n < 2 ^ 64 - 1
    → ¬ IsActive switch n
    → switch_is_active switch n ≡ false
unfolding switch_is_active
inactive none n small h = ground arith
inactive (some first) n small h = ground arith

pub IsActive-or_not : (switch : Option ℕ) (n : ℕ) → IsActive switch n ⊎ (¬ IsActive switch n)
IsActive-or_not none n = inr (λ h. h)
IsActive-or_not (some first) n = elim (Bool-cases (leb first n)) [
  | inl reached ↦ inl (ground arith)
  | inr before ↦ inr (λ h. ground arith)
]

pub factor :
    (parent : BlockHeader) (y : ℕ)
    → HasUncleFactor parent y
    → uncle_factor (not (parent.ommers_hash == empty_list_hash)) ≡ y
factor parent y (inl (same, e)) =
    let test : (parent.ommers_hash == empty_list_hash) ≡ true = (==_iff _ _).1 same in
    rw test (sym e)
factor parent y (inr (other, e)) = elim (Bool-cases (parent.ommers_hash == empty_list_hash)) [
  | inl same ↦ absurd (other ((==_iff _ _).0 same))
  | inr test ↦ rw test (sym e)
]

pub has_factor :
    (parent : BlockHeader)
    → HasUncleFactor parent (uncle_factor (not (parent.ommers_hash == empty_list_hash)))
has_factor parent = elim (Bool-cases (parent.ommers_hash == empty_list_hash)) [
  | inl test ↦ rw test (inl ((==_iff _ _).0 test, refl))
  | inr test ↦ rw test (inr (λ same. ground arith, refl))
]
