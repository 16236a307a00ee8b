-- ===== src/Consensus/Bomb.antt =====
-- The bomb in the difficulty, and the delay that counts for it.
use Prim.Native.Nat.{max}
use native.Mathlib.Nat.{pow-suc}
use martinez.Base.{
  ℕ, zero, suc, ◌+◌, ◌-◌, ◌*◌, ◌/◌, ◌^◌, ◌≤◌, ◌<◌, Bool, true, false, none, some, List, [], ◌∷◌,
  ◌++◌, ◌≡◌, refl, sym, ap, subst, ◌∙◌, ◌⊎◌, inl, inr, ltb, arith, Bool-cases,
}
use martinez.Consensus.Difficulty.{
  formula, explode, canonical_difficulty, min_difficulty, last_active, get_delay_to,
}

-- Nothing in the first two periods, one in the third, and the double in each further one.
abbrev pub bomb_size : ℕ → ℕ
bomb_size zero = 0
bomb_size (suc zero) = 0
bomb_size (suc (suc zero)) = 1
bomb_size (suc (suc (suc n))) = 2 * bomb_size (suc (suc n))

bomb_size-power : (n : ℕ) → bomb_size (suc (suc n)) ≡ 2 ^ n
bomb_size-power zero = refl
bomb_size-power (suc n) = let e = bomb_size-power n in let s = pow-suc 2 n in omega arith

power_le : (j k : ℕ) → 2 ^ k ≤ 2 ^ (j + k)
power_le zero k = let e : 0 + k ≡ k = omega arith in let power = ap (λ n. 2 ^ n) e in omega arith
power_le (suc j) k =
    let e : suc j + k ≡ suc (j + k) = omega arith in
    let rest = power_le j k in
    let s = pow-suc 2 (j + k) in let power = ap (λ n. 2 ^ n) e in omega arith

power_small : (k : ℕ) → k ≤ 254 → 2 ^ k ≤ 2 ^ 254
power_small k h =
    let e : 254 - k + k ≡ 254 = omega arith in subst (λ n. 2 ^ k ≤ 2 ^ n) e (power_le (254 - k) k)

-- The bomb that goes off, where it stays below 2^255.
explode_size :
    (delay number d periods : ℕ)
    → (number - delay) / 100000 ≡ periods
    → periods ≤ 256
    → d < 2 ^ 255
    → explode (some delay) number d ≡ d + bomb_size periods
unfolding explode
explode_size delay number d zero e small h =
    (let quiet : ltb ((number - delay) / 100000) 2 ≡ true = ground arith in rw quiet (omega arith))
explode_size delay number d (suc zero) e small h =
    (let quiet : ltb ((number - delay) / 100000) 2 ≡ true = ground arith in rw quiet (omega arith))
explode_size delay number d (suc (suc n)) e small h =
    let loud : ltb ((number - delay) / 100000) 2 ≡ false = ground arith in
    let size = bomb_size-power n in
    let low = power_small n (omega arith) in
    let exponent : (number - delay) / 100000 - 2 ≡ n = omega arith in
    rw (loud, exponent, size) (omega arith)

-- While fewer than 257 periods of 100000 blocks have passed since the delay and the formula gives
-- less than 2^255, the difficulty is the formula's with the bomb, or the minimum where that is
-- larger: the bomb is nothing in the first two periods, one in the third, and the double in each
-- further period. Without a delay there is no bomb.
pub canonical_difficulty_lem :
    (number timestamp parent_difficulty parent_timestamp delay : ℕ)
    (has_uncles byzantium homestead : Bool)
    → number < delay + 25700000
    → formula timestamp parent_difficulty parent_timestamp has_uncles byzantium homestead < 2 ^ 255
    → (canonical_difficulty number timestamp parent_difficulty parent_timestamp has_uncles byzantium
          homestead
          (some delay)
        ≡ max
            (formula timestamp parent_difficulty parent_timestamp has_uncles byzantium homestead
              + bomb_size ((number - delay) / 100000))
            131072)
      × (canonical_difficulty number timestamp parent_difficulty parent_timestamp has_uncles
            byzantium homestead none
          ≡ max
              (formula timestamp parent_difficulty parent_timestamp has_uncles byzantium homestead)
              131072)
unfolding canonical_difficulty explode
canonical_difficulty_lem number timestamp d t delay has_uncles byzantium homestead early small =
    let sum =
      explode_size delay number (formula timestamp d t has_uncles byzantium homestead) _ refl
        (omega arith) small in
    (ap (λ n. max n min_difficulty) sum, refl)

-- No activation of the list is reached.
abbrev pub AllLater : ℕ → List (ℕ × ℕ) → Type 0
AllLater number [] = Unit
AllLater number ((activation, delay) ∷ rest) = (number < activation) × AllLater number rest

-- The delay of the last activation that is reached, or 0 before all of them.
abbrev pub IsDelay : List (ℕ × ℕ) → ℕ → ℕ → Type 0
IsDelay delays number delay =
    (AllLater number delays × (delay ≡ 0))
    ⊎ ((before : List (ℕ × ℕ)) × (after : List (ℕ × ℕ)) × (activation : ℕ) × (delays
          ≡ before ++ (activation, delay) ∷ after)
        × (activation ≤ number)
        × AllLater number after)

last_active-later :
    (number : ℕ) (delays : List (ℕ × ℕ)) (last : ℕ)
    → AllLater number delays
    → last_active number delays last ≡ last
last_active-later number [] last h = refl
last_active-later number ((a, d) ∷ rest) last (later, h) =
    let e : ltb number a ≡ true = ground arith in rw e (last_active-later number rest last h)

last_active-append :
    (number : ℕ) (before after : List (ℕ × ℕ)) (last : ℕ)
    → last_active number (before ++ after) last
      ≡ last_active number after (last_active number before last)
last_active-append number [] after last = refl
last_active-append number ((a, d) ∷ rest) after last = last_active-append number rest after _

last_active-IsDelay :
    (number : ℕ) (delays : List (ℕ × ℕ)) (last : ℕ)
    → (AllLater number delays × (last_active number delays last ≡ last))
      ⊎ ((before : List (ℕ × ℕ)) × (after : List (ℕ × ℕ)) × (activation : ℕ) × (delays
            ≡ before ++ (activation, last_active number delays last) ∷ after)
          × (activation ≤ number)
          × AllLater number after)
last_active-IsDelay number [] last = inl (tt, refl)
last_active-IsDelay number ((a, d) ∷ rest) last = elim (Bool-cases (ltb number a)) [
  | inl later ↦ rw later (elim (last_active-IsDelay number rest last) [
    | inl (all, e) ↦ inl ((ground arith, all), e)
    | inr (before, after, b, e, le, all) ↦
        inr ((a, d) ∷ before, after, b, ap (λ l. (a, d) ∷ l) e, le, all)
  ])
  | inr reached ↦ rw reached (elim (last_active-IsDelay number rest d) [
    | inl (all, e) ↦ inr ([], rest, a, ap (λ (k : ℕ). (a, k) ∷ rest) (sym e), ground arith, all)
    | inr (before, after, b, e, le, all) ↦
        inr ((a, d) ∷ before, after, b, ap (λ l. (a, d) ∷ l) e, le, all)
  ])
]

pub get_delay_to-IsDelay :
    (delays : List (ℕ × ℕ)) (number : ℕ) → IsDelay delays number (get_delay_to delays number)
unfolding get_delay_to
get_delay_to-IsDelay delays number = last_active-IsDelay number delays 0

pub IsDelay-unique :
    (delays : List (ℕ × ℕ)) (number delay : ℕ)
    → IsDelay delays number delay
    → delay ≡ get_delay_to delays number
unfolding get_delay_to
IsDelay-unique delays number delay (inl (all, e)) = e ∙ sym (last_active-later number delays 0 all)
IsDelay-unique delays number delay (inr (before, after, a, e, le, all)) =
    let reached : ltb number a ≡ false = ground arith in
    let split = last_active-append number before ((a, delay) ∷ after) 0 in
    let value = last_active-later number after delay all in rw (e, split, reached) (sym value)
