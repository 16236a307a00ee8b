-- ===== src/Evm/Tables.antt =====
-- Tables of instructions: rows, of which the first one of an instruction counts.
use martinez.Base.{
  ℕ, zero, suc, Bool, true, false, Option, none, some, List, [], ◌∷◌, ◌≡◌, refl, ◌==◌, ◌&&◌,
  if◌then◌else◌, Bool-cases, inl, inr, subst, ==_iff,
}

-- The integers of `i8`.
pub data ℤ : Type 0 where
  pos : ℕ → ℤ
  negsuc : ℕ → ℤ

-- The `n` numbers from `first` on.
abbrev pub count : ℕ → ℕ → List ℕ
count first zero = []
count first (suc n) = first ∷ count (suc first) n

pub and_true : (a b : Bool) → (a && b) ≡ true → (a ≡ true) × (b ≡ true)
and_true true b h = (refl, h)
and_true false b h = cc

module _ {A : Type 0} where
  abbrev pub find : List (ℕ × A) → ℕ → Option A
  find [] op = none
  find ((key, a) ∷ rest) op = if key == op then some a else find rest op

  abbrev pub all : (ℕ → A → Bool) → List (ℕ × A) → Bool
  all test [] = true
  all test ((key, a) ∷ rest) = test key a && all test rest

  -- What is found passes a test that all rows pass.
  pub all-find :
      (test : ℕ → A → Bool) (rows : List (ℕ × A)) (op : ℕ) (a : A)
      → all test rows ≡ true
      → find rows op ≡ some a
      → test op a ≡ true
  all-find test [] op a h k = cc
  all-find test ((key, b) ∷ rest) op a h k =
      let (here, there) = and_true (test key b) _ h in
      elim (Bool-cases (key == op)) [
        | inl same ↦
            let found : some b ≡ some a = rw same at k in
            subst (λ c. test c a ≡ true) ((==_iff key op).0 same)
              (subst (λ c. test key c ≡ true) (cc) here)
        | inr other ↦ all-find test rest op a there (rw other at k)
      ]
