-- ===== src/Evm/Heights.antt =====
-- The instructions of Evm.Instructions against the properties that src/execution/evm/instructions/
-- properties.rs lists for them.
use martinez.Base.{
  ℕ, zero, suc, ◌+◌, ◌-◌, ◌≤◌, ◌<◌, Bool, true, false, ◌&&◌, Option, none, some, [], ◌∷◌, ◌≡◌, refl,
  sym, ap, subst, ◌∙◌, ◌==◌, ==_iff, arith, length, ok, Bool-cases, inl, inr,
}
use martinez.Consensus.Rewards.{Revision}
use martinez.Evm.Tables.{ℤ, pos, negsuc, and_true}
use martinez.Evm.OpCodes.{op_dup, op_swap}
use martinez.Evm.Properties.{Properties, properties}
use martinez.Evm.Requirements.{
  stack_size, Fits, InstructionTableEntry, instruction_table, check_requirements, passed,
  check_requirements-IsSafe,
}
use martinez.Evm.Stack.{
  Stack, Outcome, returned, modify_top, push_returns, get_returns, swap_top_returns,
}
use martinez.Evm.Instructions

-- The height after an instruction that changes it by the given number.
abbrev pub After : ℕ → ℤ → ℕ → Type 0
After size (pos n) out = out ≡ size + n
After size (negsuc n) out = out + suc n ≡ size

abbrev Runs : (Stack → Outcome Stack) → ℕ → ℤ → Type 0
Runs f required change =
    (stack : Stack)
    → length stack ≤ stack_size
    → required ≤ length stack
    → Fits (length stack) change
    → (out : Stack) × (f stack ≡ returned out) × After (length stack) change (length out)

pop_two_push-Runs : (f : ℕ → ℕ → ℕ) → Runs (Instructions.pop_two_push f) 2 (negsuc 0)
pop_two_push-Runs f [] h r fits = absurd (omega arith)
pop_two_push-Runs f (a ∷ []) h r fits = absurd (omega arith)
pop_two_push-Runs f (a ∷ b ∷ stack) h r fits =
    (f a b ∷ stack, push_returns (f a b) stack (omega arith), omega arith)

pop_modify-Runs : (f : ℕ → ℕ → ℕ) → Runs (Instructions.pop_modify f) 2 (negsuc 0)
pop_modify-Runs f [] h r fits = absurd (omega arith)
pop_modify-Runs f (a ∷ []) h r fits = absurd (omega arith)
pop_modify-Runs f (a ∷ b ∷ stack) h r fits = (f a b ∷ stack, refl, omega arith)

pop_three_push-Runs : (f : ℕ → ℕ → ℕ → ℕ) → Runs (Instructions.pop_three_push f) 3 (negsuc 1)
pop_three_push-Runs f [] h r fits = absurd (omega arith)
pop_three_push-Runs f (a ∷ []) h r fits = absurd (omega arith)
pop_three_push-Runs f (a ∷ b ∷ []) h r fits = absurd (omega arith)
pop_three_push-Runs f (a ∷ b ∷ c ∷ stack) h r fits =
    (f a b c ∷ stack, push_returns (f a b c) stack (omega arith), omega arith)

modify_top-Runs : (f : ℕ → ℕ) → Runs (modify_top f) 1 (pos 0)
modify_top-Runs f [] h r fits = absurd (omega arith)
modify_top-Runs f (a ∷ stack) h r fits = (f a ∷ stack, refl, omega arith)

pop_item-Runs : Runs Instructions.pop_item 1 (negsuc 0)
unfolding Instructions.pop_item
pop_item-Runs [] h r fits = absurd (omega arith)
pop_item-Runs (a ∷ stack) h r fits = (stack, refl, omega arith)

dup-Runs : (n : ℕ) → 1 ≤ n → Runs (Instructions.dup n) n (pos 1)
unfolding Instructions.dup
dup-Runs n pos_n stack h r fits =
    let (v, e) = get_returns (n - 1) stack (omega arith) in
    (v ∷ stack, rw e (push_returns v stack (omega arith)), omega arith)

swap-Runs : (n : ℕ) → Runs (Instructions.swap n) (n + 1) (pos 0)
unfolding Instructions.swap
swap-Runs n stack h r fits =
    let (out, e, same) = swap_top_returns n stack (omega arith) in (out, e, omega arith)

-- The rows of the numbered families, checked one by one.
abbrev grows_by : ℤ → ℕ → Bool
grows_by (pos n) c = n == c
grows_by (negsuc n) c = false

abbrev has_row : Option Properties → ℕ → ℕ → Bool
has_row none r c = false
has_row (some p) r c = p.stack_height_required == r && grows_by p.stack_height_change c

abbrev every : (ℕ → Bool) → ℕ → ℕ → Bool
every test first zero = true
every test first (suc n) = test first && every test (suc first) n

every_at :
    (test : ℕ → Bool) (first n k : ℕ)
    → every test first n ≡ true
    → first ≤ k
    → k < first + n
    → test k ≡ true
every_at test first zero k h le lt = absurd (omega arith)
every_at test first (suc n) k h le lt =
    let (here, rest) = and_true (test first) _ h in
    elim (Bool-cases (first == k)) [
      | inl same ↦ subst (λ j. test j ≡ true) ((==_iff first k).0 same) here
      | inr other ↦ every_at test (suc first) n k rest (ground arith) (omega arith)
    ]

grows_by_eq : (change : ℤ) (c : ℕ) → grows_by change c ≡ true → change ≡ pos c
grows_by_eq (pos n) c h = ap pos ((==_iff n c).0 h)
grows_by_eq (negsuc n) c h = cc

has_row_found :
    (o : Option Properties) (r c : ℕ)
    → has_row o r c ≡ true
    → (p : Properties) × (o ≡ some p)
      × (p.stack_height_required ≡ r)
      × (p.stack_height_change ≡ pos c)
has_row_found none r c h = absurd (cc)
has_row_found (some p) r c h =
    let (same, grows) = and_true (p.stack_height_required == r) _ h in
    (p, refl, (==_iff _ _).0 same, grows_by_eq p.stack_height_change c grows)

all_dups : every (λ n. has_row (properties (op_dup n)) n 1) 1 16 ≡ true
unfolding properties
all_dups = refl

all_swaps : every (λ n. has_row (properties (op_swap n)) (n + 1) 0) 1 16 ≡ true
unfolding properties
all_swaps = refl

-- DUP and SWAP have the numbers 1 to 16.
abbrev pub InRange : Instructions.StackInstruction → Type 0
InRange (Instructions.i_dup n) = (1 ≤ n) × (n ≤ 16)
InRange (Instructions.i_swap n) = (1 ≤ n) × (n ≤ 16)
InRange _ = Unit

abbrev RunsAs : Instructions.StackInstruction → Type 0
RunsAs i =
    (p : Properties) × (properties (Instructions.opcode i) ≡ some p)
    × Runs (Instructions.execute i) p.stack_height_required p.stack_height_change

runs_as : (i : Instructions.StackInstruction) → InRange i → RunsAs i
unfolding properties Instructions.execute Instructions.add Instructions.mul Instructions.sub
    Instructions.div Instructions.modulo Instructions.addmod Instructions.mulmod Instructions.lt
    Instructions.gt Instructions.eq Instructions.iszero Instructions.bitwise_not Instructions.shl
    Instructions.shr
runs_as Instructions.i_add _ = (_, refl, pop_two_push-Runs _)
runs_as Instructions.i_mul _ = (_, refl, pop_two_push-Runs _)
runs_as Instructions.i_sub _ = (_, refl, pop_two_push-Runs _)
runs_as Instructions.i_div _ = (_, refl, pop_modify-Runs _)
runs_as Instructions.i_mod _ = (_, refl, pop_modify-Runs _)
runs_as Instructions.i_addmod _ = (_, refl, pop_three_push-Runs _)
runs_as Instructions.i_mulmod _ = (_, refl, pop_three_push-Runs _)
runs_as Instructions.i_lt _ = (_, refl, pop_modify-Runs _)
runs_as Instructions.i_gt _ = (_, refl, pop_modify-Runs _)
runs_as Instructions.i_eq _ = (_, refl, pop_modify-Runs _)
runs_as Instructions.i_iszero _ = (_, refl, modify_top-Runs _)
runs_as Instructions.i_not _ = (_, refl, modify_top-Runs _)
runs_as Instructions.i_shl _ = (_, refl, pop_modify-Runs _)
runs_as Instructions.i_shr _ = (_, refl, pop_modify-Runs _)
runs_as Instructions.i_pop _ = (_, refl, pop_item-Runs)
runs_as (Instructions.i_dup n) (low, high) =
    let (p, found, required, change) =
      has_row_found (properties (op_dup n)) n 1
        (every_at (λ n. has_row (properties (op_dup n)) n 1) 1 16 n all_dups low (omega arith)) in
    (
      p,
      found,
      subst (λ r. Runs (Instructions.dup n) r p.stack_height_change) (sym required)
          (subst (Runs (Instructions.dup n) n) (sym change) (dup-Runs n low)),
    )
runs_as (Instructions.i_swap n) (low, high) =
    let (p, found, required, change) = has_row_found (properties (op_swap n)) (n + 1) 0 (
      every_at (λ n. has_row (properties (op_swap n)) (n + 1) 0) 1 16 n all_swaps low
        (omega arith)) in
    (
      p,
      found,
      subst (λ r. Runs (Instructions.swap n) r p.stack_height_change) (sym required)
          (subst (Runs (Instructions.swap n) (n + 1)) (sym change) (swap-Runs n)),
    )

-- A modelled instruction, on a stack of at most 1024 items, that passes the check before it: it
-- returns, without a pop of an empty stack, an index out of bounds or a write past the buffer, and
-- it changes the height of the stack by what its properties say.
pub execute-After :
    (revision : Revision) (i : Instructions.StackInstruction) (gas_left gas' : ℕ) (stack : Stack)
    (entry : Option InstructionTableEntry)
    → InRange i
    → length stack ≤ stack_size
    → instruction_table revision (Instructions.opcode i) ≡ ok entry
    → check_requirements entry gas_left (length stack) ≡ passed gas'
    → (p : Properties) × (out : Stack) × (properties (Instructions.opcode i) ≡ some p)
      × (Instructions.execute i stack ≡ returned out)
      × After (length stack) p.stack_height_change (length out)
execute-After revision i gas_left gas' stack entry range h table checked =
    let safe = check_requirements-IsSafe revision _ gas_left _ gas' entry h table checked in
    let (p, found, runs) = runs_as i range in
    let same : safe.effect ≡ p = some_eq (sym safe.has_effect ∙ found) in
    let enough =
      subst (λ (q : Properties). q.stack_height_required ≤ length stack) same safe.enough in
    let fits =
      subst (λ (q : Properties). Fits (length stack) q.stack_height_change) same safe.fits in
    let (out, done, after) = runs stack h enough fits in (p, out, found, done, after)
  where
    some_eq : {a b : Properties} → some a ≡ some b → a ≡ b
    some_eq e = cc
