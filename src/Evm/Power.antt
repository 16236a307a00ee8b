-- ===== src/Evm/Power.antt =====
-- src/execution/evm/instructions/arithmetic.rs: `exp` with its gas, and `log2floor`.
use martinez.Base.{
  ℕ, zero, suc, ◌+◌, ◌-◌, ◌*◌, ◌/◌, ◌%◌, ◌^◌, ◌<◌, true, false, Option, none, some, ◌∷◌, ◌≡◌, sym,
  ap, ◌∙◌, ltb, leb, ◌==◌, if◌then◌else◌, arith, length, inl, inr, Bool-cases, ==_iff,
}
use native.Mathlib.Nat.{pow-zero, pow-suc, add-mul-mod_self_right, mod-eq_of_lt, div-add-mod'}
use martinez.Consensus.Rewards.{Revision, rank, spurious}
use martinez.Evm.Requirements.{stack_size}
use martinez.Evm.Stack.{Stack, Outcome, returned, ◌>>=◌, push, pop, push_returns}
use martinez.Evm.Instructions.{word}

-- The bits up to the highest one that is set, of a number of at most `n` bits.
unfoldable pub bit_length : ℕ → ℕ → ℕ
bit_length zero v = 0
bit_length (suc n) v = if v == 0 then 0 else suc (bit_length n (v / 2))

-- `u128::leading_zeros`
unfoldable pub leading_zeros : ℕ → ℕ
leading_zeros v = 128 - bit_length 128 v

unfoldable pub last_bit : ℕ → ℕ → ℕ
last_bit l v = let left = l - leading_zeros v in if left == 0 then left else left - 1

-- The loop over the high and the low word.
unfoldable pub log2floor : ℕ → ℕ
log2floor value =
    let high = value / 2 ^ 128 in
    let low = value % 2 ^ 128 in
    if high == 0 then if low == 0 then 0 else last_bit 128 low else last_bit 256 high

-- The `while` loop on fuel.
unfoldable pub exp_loop : ℕ → ℕ → ℕ → ℕ → ℕ
exp_loop zero v base power = v
exp_loop (suc n) v base power = elim (power == 0) [
  | true ↦ v
  | false ↦
      exp_loop n (if power % 2 == 0 then v else v * base % word) (base * base % word) (power / 2)
]

unfoldable pub exp_gas : Revision → ℕ → ℕ
exp_gas revision power =
    if power == 0
    then 0
    else (if leb (rank spurious) (rank revision) then 50 else 10) * (log2floor power / 8 + 1)

-- The gas left and the stack; `none` is OutOfGas.
unfoldable pub exp : Revision → ℕ → Stack → Outcome (Option (ℕ × Stack))
exp revision gas_left stack = do
  (base, stack) ← pop stack
  (power, stack) ← pop stack
  if ltb gas_left (exp_gas revision power) then returned none else do
    stack ← push (exp_loop 256 1 base power) stack
    returned (some (gas_left - exp_gas revision power, stack))

mul_mod_left : (a b w : ℕ) → a % w * b % w ≡ a * b % w
mul_mod_left a b w =
    let parts : (a / w * w + a % w) * b ≡ a % w * b + a / w * b * w = grind arith in
    let split : a * b ≡ a % w * b + a / w * b * w =
      ap (λ n. n * b) (sym (div-add-mod' a w)) ∙ parts in
    sym (add-mul-mod_self_right (a % w * b) (a / w * b) w) ∙ ap (λ n. n % w) (sym split)

mul_mod_right : (a b w : ℕ) → a * (b % w) % w ≡ a * b % w
mul_mod_right a b w =
    let turn : a * (b % w) ≡ b % w * a = grind arith in
    let back : b * a ≡ a * b = grind arith in
    ap (λ n. n % w) turn ∙ mul_mod_left b a w ∙ ap (λ n. n % w) back

pow_mod : (b q w : ℕ) → (b % w) ^ q % w ≡ b ^ q % w
pow_mod b zero w = ap (λ n. n % w) (pow-zero (b % w) ∙ sym (pow-zero b))
pow_mod b (suc q) w =
    ap (λ n. n % w) (pow-suc (b % w) q)
    ∙ mul_mod_right ((b % w) ^ q) b w
    ∙ sym (mul_mod_left ((b % w) ^ q) b w)
    ∙ ap (λ n. n * b % w) (pow_mod b q w)
    ∙ mul_mod_left (b ^ q) b w
    ∙ ap (λ n. n % w) (sym (pow-suc b q))

pow_square : (b q : ℕ) → (b * b) ^ q ≡ b ^ (q + q)
pow_square b zero = pow-zero (b * b) ∙ sym (pow-zero b)
pow_square b (suc q) =
    let more : suc q + suc q ≡ suc (suc (q + q)) = omega arith in
    let turn : b ^ (q + q) * (b * b) ≡ b ^ (q + q) * b * b = grind arith in
    pow-suc (b * b) q
    ∙ ap (λ n. n * (b * b)) (pow_square b q)
    ∙ turn
    ∙ ap (λ n. n * b) (sym (pow-suc b (q + q)))
    ∙ sym (pow-suc b (suc (q + q)))
    ∙ ap (λ n. b ^ n) (sym more)

-- One squaring: `q` factors of the squared base are `q + q` of the base.
squared : (v b q w : ℕ) → v * (b * b % w) ^ q % w ≡ v * b ^ (q + q) % w
squared v b q w =
    sym (mul_mod_right v ((b * b % w) ^ q) w)
    ∙ ap (λ n. v * n % w) (pow_mod (b * b) q w)
    ∙ mul_mod_right v ((b * b) ^ q) w
    ∙ ap (λ n. v * n % w) (pow_square b q)

one_more : (v b k p : ℕ) → suc k ≡ p → v * b * b ^ k ≡ v * b ^ p
one_more v b k p e =
    let turn : v * b * b ^ k ≡ v * (b ^ k * b) = grind arith in
    turn ∙ ap (λ n. v * n) (sym (pow-suc b k)) ∙ ap (λ n. v * b ^ n) e

exp_loop-stop : (v base power : ℕ) → power ≡ 0 → v < word → v ≡ v * base ^ power % word
exp_loop-stop v base power e small =
    let one : v * base ^ power ≡ v =
      ap (λ n. v * base ^ n) e ∙ ap (λ n. v * n) (pow-zero base) ∙ (omega arith) in
    sym (ap (λ n. n % word) one ∙ mod-eq_of_lt small)

exp_loop-power :
    (n v base power : ℕ)
    → power < 2 ^ n
    → v < word
    → exp_loop n v base power ≡ v * base ^ power % word
unfolding exp_loop
exp_loop-power zero v base power h small = exp_loop-stop v base power (omega arith) small
exp_loop-power (suc n) v base power h small = elim (Bool-cases (power == 0)) [
  | inl stop ↦ rw (exp_loop, stop) (exp_loop-stop v base power ((==_iff _ _).0 stop) small)
  | inr go ↦
      let half = exp_loop-power n in
      let half_small : power / 2 < 2 ^ n = (let e = pow-suc 2 n in omega arith) in
      elim (Bool-cases (power % 2 == 0)) [
        | inl even ↦
            let double : power / 2 + power / 2 ≡ power = ground arith in
            rw (exp_loop, go, even)
              (half v (base * base % word) (power / 2) half_small small
                ∙ squared v base (power / 2) word
                ∙ ap (λ n. v * base ^ n % word) double)
        | inr odd ↦
            let double : suc (power / 2 + power / 2) ≡ power = ground arith in
            let turn : v * base * base ^ (power / 2 + power / 2) ≡ v * base ^ power =
              one_more v base _ power double in
            rw (exp_loop, go, odd)
              (half (v * base % word) (base * base % word) (power / 2) half_small (omega arith)
                ∙ squared (v * base % word) base (power / 2) word
                ∙ mul_mod_left (v * base) _ word
                ∙ ap (λ n. n % word) turn)
      ]
]

-- EXP on a stack with room, where the exponent is below 2^256: without the gas it is OutOfGas, and
-- with it the gas is paid, the two operands are replaced by one item, and that is the power of the
-- first to the second modulo 2^256.
pub exp_lem :
    (revision : Revision) (gas_left base power : ℕ) (stack : Stack)
    → power < word
    → length stack < stack_size
    → exp revision gas_left (base ∷ power ∷ stack) ≡ (
        if ltb gas_left (exp_gas revision power)
        then returned none
        else returned (some (gas_left - exp_gas revision power, base ^ power % word ∷ stack)))
unfolding exp
exp_lem revision gas_left base power stack h room =
    let one : 1 * base ^ power ≡ base ^ power = omega arith in
    let value : exp_loop 256 1 base power ≡ base ^ power % word =
      exp_loop-power 256 1 base power h (omega arith) ∙ ap (λ n. n % word) one in
    let pushed = push_returns (exp_loop 256 1 base power) stack room in
    elim (Bool-cases (ltb gas_left (exp_gas revision power))) [
      | inl dear ↦ rw dear
      | inr cheap ↦ rw (cheap, pushed, value)
    ]
