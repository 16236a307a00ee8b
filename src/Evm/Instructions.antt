-- ===== src/Evm/Instructions.antt =====
-- src/execution/evm/instructions/arithmetic.rs, boolean.rs, bitwise.rs and stack_manip.rs: the
-- instructions that only use the stack and the arithmetic of U256, and their dispatch.
use martinez.Base.{
  ℕ, ◌+◌, ◌-◌, ◌*◌, ◌/◌, ◌%◌, ◌^◌, Bool, true, false, ◌||◌, ltb, leb, ◌==◌, if◌then◌else◌,
}
use martinez.Evm.Stack.{Stack, Outcome, returned, ◌>>=◌, push, pop, get, modify_top, swap_top}
use martinez.Evm.OpCodes.{
  op_add, op_mul, op_sub, op_div, op_mod, op_addmod, op_mulmod, op_lt, op_gt, op_eq, op_iszero,
  op_not, op_shl, op_shr, op_pop, op_dup, op_swap,
}

-- `pop`, `pop`, `push`.
abbrev pub pop_two_push : (ℕ → ℕ → ℕ) → Stack → Outcome Stack
pop_two_push f stack = do (a, stack) ← pop stack; (b, stack) ← pop stack; push (f a b) stack

-- `pop`, and the new top is written in place.
abbrev pub pop_modify : (ℕ → ℕ → ℕ) → Stack → Outcome Stack
pop_modify f stack = do (a, stack) ← pop stack; modify_top (f a) stack

abbrev pub pop_three_push : (ℕ → ℕ → ℕ → ℕ) → Stack → Outcome Stack
pop_three_push f stack = do
  (a, stack) ← pop stack
  (b, stack) ← pop stack
  (c, stack) ← pop stack
  push (f a b c) stack

abbrev pub word : ℕ
word = 2 ^ 256

abbrev pub bit : Bool → ℕ
bit true = 1
bit false = 0

unfoldable pub add : Stack → Outcome Stack
add = pop_two_push (λ a b. (a + b) % word)

unfoldable pub mul : Stack → Outcome Stack
mul = pop_two_push (λ a b. a * b % word)

unfoldable pub sub : Stack → Outcome Stack
sub = pop_two_push (λ a b. (a + word - b) % word)

unfoldable pub div : Stack → Outcome Stack
div = pop_modify (λ a b. if b == 0 then 0 else a / b)

unfoldable pub modulo : Stack → Outcome Stack
modulo = pop_modify (λ a b. if b == 0 then 0 else a % b)

-- The sum and the product are 512 bits wide.
unfoldable pub addmod : Stack → Outcome Stack
addmod = pop_three_push (λ a b c. if c == 0 then 0 else (a + b) % c)

unfoldable pub mulmod : Stack → Outcome Stack
mulmod = pop_three_push (λ a b c. if c == 0 then 0 else a * b % c)

unfoldable pub lt : Stack → Outcome Stack
lt = pop_modify (λ a b. bit (ltb a b))

unfoldable pub gt : Stack → Outcome Stack
gt = pop_modify (λ a b. bit (ltb b a))

unfoldable pub eq : Stack → Outcome Stack
eq = pop_modify (λ a b. bit (a == b))

unfoldable pub iszero : Stack → Outcome Stack
iszero = modify_top (λ a. bit (a == 0))

unfoldable pub bitwise_not : Stack → Outcome Stack
bitwise_not = modify_top (λ v. word - 1 - v)

unfoldable pub shl : Stack → Outcome Stack
shl =
    pop_modify (λ shift value. if value == 0 || leb 256 shift then 0 else value * 2 ^ shift % word)

unfoldable pub shr : Stack → Outcome Stack
shr = pop_modify (λ shift value. if value == 0 || leb 256 shift then 0 else value / 2 ^ shift)

-- `HEIGHT` is one at least.
unfoldable pub dup : ℕ → Stack → Outcome Stack
dup height stack = do v ← get (height - 1) stack; push v stack

unfoldable pub swap : ℕ → Stack → Outcome Stack
swap height stack = swap_top height stack

unfoldable pub pop_item : Stack → Outcome Stack
pop_item stack = do (v, stack) ← pop stack; returned stack

-- The modelled arms of the interpreter's `match`; DUP and SWAP have their number.
pub data StackInstruction : Type 0 where
  i_add i_mul i_sub i_div i_mod i_addmod i_mulmod : StackInstruction
  i_lt i_gt i_eq i_iszero i_not i_shl i_shr i_pop : StackInstruction
  i_dup i_swap : ℕ → StackInstruction

abbrev pub opcode : StackInstruction → ℕ
opcode i_add = op_add
opcode i_mul = op_mul
opcode i_sub = op_sub
opcode i_div = op_div
opcode i_mod = op_mod
opcode i_addmod = op_addmod
opcode i_mulmod = op_mulmod
opcode i_lt = op_lt
opcode i_gt = op_gt
opcode i_eq = op_eq
opcode i_iszero = op_iszero
opcode i_not = op_not
opcode i_shl = op_shl
opcode i_shr = op_shr
opcode i_pop = op_pop
opcode (i_dup n) = op_dup n
opcode (i_swap n) = op_swap n

unfoldable pub execute : StackInstruction → Stack → Outcome Stack
execute i_add = add
execute i_mul = mul
execute i_sub = sub
execute i_div = div
execute i_mod = modulo
execute i_addmod = addmod
execute i_mulmod = mulmod
execute i_lt = lt
execute i_gt = gt
execute i_eq = eq
execute i_iszero = iszero
execute i_not = bitwise_not
execute i_shl = shl
execute i_shr = shr
execute i_pop = pop_item
execute (i_dup n) = dup n
execute (i_swap n) = swap n
