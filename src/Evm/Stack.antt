-- ===== src/Evm/Stack.antt =====
-- src/execution/evm/state.rs: the stack, its top first.
use martinez.Base.{
  ℕ, zero, suc, ◌<◌, true, none, some, List, [], ◌∷◌, ◌≡◌, refl, ltb, if◌then◌else◌, arith, length,
  get_elem?,
}
use martinez.Evm.Requirements.{stack_size}

abbrev pub Stack : Type 0
Stack = List ℕ

-- `panicked`: the underflow of `pop`, or an index out of bounds. `overrun`: `push_unchecked` wrote
-- past the buffer, which Rust leaves undefined.
pub data Outcome {ℓ} (A : Type ℓ) : Type ℓ where
  returned : A → Outcome A
  panicked overrun : Outcome A

infixl 5 ◌>>=◌
abbrev pub ◌>>=◌ {ℓ κ} : {A : Type ℓ} {B : Type κ} → Outcome A → (A → Outcome B) → Outcome B
returned a >>= f = f a
panicked >>= f = panicked
overrun >>= f = overrun

abbrev pub push : ℕ → Stack → Outcome Stack
push v stack = if ltb (length stack) stack_size then returned (v ∷ stack) else overrun

abbrev pub pop : Stack → Outcome (ℕ × Stack)
pop [] = panicked
pop (v ∷ stack) = returned (v, stack)

abbrev pub get : ℕ → Stack → Outcome ℕ
get pos stack = elim (get_elem? stack pos) [ none ↦ panicked | some v ↦ returned v ]

-- `*stack.get_mut(0) = f(*stack.get_mut(0))`
abbrev pub modify_top : (ℕ → ℕ) → Stack → Outcome Stack
modify_top f [] = panicked
modify_top f (v ∷ stack) = returned (f v ∷ stack)

-- The item at a position is replaced, and what was there returned.
abbrev pub exchange : ℕ → ℕ → Stack → Outcome (ℕ × Stack)
exchange pos v [] = panicked
exchange zero v (w ∷ stack) = returned (w, v ∷ stack)
exchange (suc pos) v (w ∷ stack) = do (out, rest) ← exchange pos v stack; returned (out, w ∷ rest)

abbrev pub swap_top : ℕ → Stack → Outcome Stack
swap_top pos [] = panicked
swap_top zero (top ∷ stack) = returned (top ∷ stack)
swap_top (suc pos) (top ∷ stack) = do (out, rest) ← exchange pos top stack; returned (out ∷ rest)

pub push_returns :
    (v : ℕ) (stack : Stack) → length stack < stack_size → push v stack ≡ returned (v ∷ stack)
push_returns v stack h = let room : ltb (length stack) stack_size ≡ true = ground arith in rw room

pub get_returns :
    (pos : ℕ) (stack : Stack) → pos < length stack → (v : ℕ) × (get pos stack ≡ returned v)
get_returns pos [] h = absurd (omega arith)
get_returns zero (v ∷ stack) h = (v, refl)
get_returns (suc pos) (v ∷ stack) h = get_returns pos stack (omega arith)

exchange_returns :
    (pos v : ℕ) (stack : Stack)
    → pos < length stack
    → (out : ℕ) × (rest : Stack) × (exchange pos v stack ≡ returned (out, rest))
      × (length rest ≡ length stack)
exchange_returns pos v [] h = absurd (omega arith)
exchange_returns zero v (w ∷ stack) h = (w, v ∷ stack, refl, refl)
exchange_returns (suc pos) v (w ∷ stack) h =
    let (out, rest, e, same) = exchange_returns pos v stack (omega arith) in
    (out, w ∷ rest, rw e, omega arith)

pub swap_top_returns :
    (pos : ℕ) (stack : Stack)
    → pos < length stack
    → (out : Stack) × (swap_top pos stack ≡ returned out) × (length out ≡ length stack)
swap_top_returns pos [] h = absurd (omega arith)
swap_top_returns zero (top ∷ stack) h = (top ∷ stack, refl, refl)
swap_top_returns (suc pos) (top ∷ stack) h =
    let (out, rest, e, same) = exchange_returns pos top stack (omega arith) in
    (out ∷ rest, rw e, omega arith)
