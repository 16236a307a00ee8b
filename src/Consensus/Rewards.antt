-- ===== src/Consensus/Rewards.antt =====
-- consensus/ethash/mod.rs: `finalize`; models/revision.rs.
use martinez.Base.{
  ℕ, ◌+◌, ◌-◌, ◌*◌, ◌/◌, ◌%◌, ◌^◌, ◌≤◌, ◌<◌, List, [], ◌∷◌, ◌++◌, map, ◌≡◌, leb, if◌then◌else◌,
  arith, length,
}
use martinez.Consensus.Types.{BlockHeader}

pub data Revision : Type 0 where
  frontier homestead tangerine spurious byzantium constantinople : Revision
  petersburg istanbul berlin london shanghai : Revision

-- The discriminants, by which revisions are compared.
unfoldable pub rank : Revision → ℕ
rank frontier = 0
rank homestead = 1
rank tangerine = 2
rank spurious = 3
rank byzantium = 4
rank constantinople = 5
rank petersburg = 6
rank istanbul = 7
rank berlin = 8
rank london = 9
rank shanghai = 10

abbrev pub ether : ℕ
ether = 10 ^ 18

unfoldable pub block_reward : Revision → ℕ
unfolding rank
block_reward revision =
    if leb (rank constantinople) (rank revision)
    then 2 * ether
    else if leb (rank byzantium) (rank revision)
    then 3 * ether
    else 5 * ether

pub data FinalizationChange : Type 0 where
  reward : (address amount : ℕ) → FinalizationChange

-- `(U256::from(8 + ommer.number.0 - block_number.0) * block_reward) >> 3`
unfoldable pub ommer_reward : ℕ → ℕ → ℕ → ℕ
ommer_reward block_number block_reward ommer_number =
    ((8 + ommer_number + 2 ^ 64 - block_number) % 2 ^ 64 * block_reward % 2 ^ 256) / 8

-- The loop over the ommers: the changes pushed, and the miner's reward as it grows.
unfoldable pub ommer_loop : ℕ → ℕ → List BlockHeader → ℕ → List FinalizationChange × ℕ
ommer_loop block_number block_reward [] miner_reward = ([], miner_reward)
ommer_loop block_number block_reward (ommer ∷ rest) miner_reward =
    let (changes, total) =
      ommer_loop block_number block_reward rest (miner_reward + block_reward / 32) in
    (
      reward ommer.beneficiary (ommer_reward block_number block_reward ommer.number) ∷ changes,
      total,
    )

unfoldable pub finalize : ℕ → ℕ → List BlockHeader → Revision → List FinalizationChange
finalize number beneficiary ommers revision =
    let (changes, miner_reward) =
      ommer_loop number (block_reward revision) ommers (block_reward revision) in
    changes ++ reward beneficiary miner_reward ∷ []

-- Each ommer is one to six blocks older than the block.
abbrev pub AreRecent : ℕ → List BlockHeader → Type 0
AreRecent number [] = Unit
AreRecent number (ommer ∷ rest) =
    (ommer.number < number) × (number ≤ ommer.number + 6) × AreRecent number rest

-- An ommer's share: an eighth of the reward less for each block that it is late.
abbrev pub share : ℕ → ℕ → BlockHeader → FinalizationChange
share number block_reward ommer =
    reward ommer.beneficiary ((8 - (number - ommer.number)) * block_reward / 8)

ommer_reward_value :
    (number k r : ℕ)
    → k < number
    → number ≤ k + 6
    → number < 2 ^ 63
    → r < 2 ^ 128
    → ommer_reward number r k ≡ (8 - (number - k)) * r / 8
unfolding ommer_reward
ommer_reward_value number k r h h' fits hr =
    let factor : (8 + k + 2 ^ 64 - number) % 2 ^ 64 ≡ 8 - (number - k) = omega arith in
    let small : (8 - (number - k)) * r ≤ 8 * r = grind arith in
    let whole : (8 - (number - k)) * r % 2 ^ 256 ≡ (8 - (number - k)) * r = omega arith in
    rw (factor, whole)

ommer_loop_value :
    (number r : ℕ) (ommers : List BlockHeader) (miner : ℕ)
    → number < 2 ^ 63
    → r < 2 ^ 128
    → AreRecent number ommers
    → ommer_loop number r ommers miner
      ≡ (map (share number r) ommers, miner + length ommers * (r / 32))
unfolding ommer_loop
ommer_loop_value number r [] miner fits hr recent = λ i. ([], miner_same i)
  where
    miner_same : miner ≡ miner + length {A = BlockHeader} [] * (r / 32)
    miner_same = omega arith
ommer_loop_value number r (ommer ∷ rest) miner fits hr (older, near, recent) =
    let ih = ommer_loop_value number r rest (miner + r / 32) fits hr recent in
    let sum : miner + r / 32 + length rest * (r / 32) ≡ miner + length (ommer ∷ rest) * (r / 32) =
      omega arith in
    rw (ih, sum, ommer_reward_value number ommer.number r older near fits hr)

block_reward-lt : (revision : Revision) → block_reward revision < 2 ^ 128
unfolding block_reward
block_reward-lt frontier = omega arith
block_reward-lt _ = omega arith

-- With ommers one to six blocks older than the block, each ommer's beneficiary gets the block reward
-- less an eighth for each block that it is late, in the ommers' order, and at the end the block's
-- beneficiary gets the block reward and a 32nd of it for each ommer.
pub finalize_lem :
    (number beneficiary : ℕ) (ommers : List BlockHeader) (revision : Revision)
    → number < 2 ^ 63
    → AreRecent number ommers
    → finalize number beneficiary ommers revision
      ≡ map (share number (block_reward revision)) ommers
        ++ reward beneficiary (block_reward revision + length ommers * (block_reward revision / 32))
          ∷ []
unfolding finalize
finalize_lem number beneficiary ommers revision fits recent = rw (
    ommer_loop_value number (block_reward revision) ommers (block_reward revision) fits
      (block_reward-lt revision) recent)
