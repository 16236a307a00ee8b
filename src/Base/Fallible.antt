-- ===== src/Base/Fallible.antt =====
-- `anyhow::Result` of the stateful components, with panics as a second kind of fault.
use mathlib.Core.Path.{◌≡◌, refl}
use mathlib.Core.Option.{Option, none, some}

-- `database`: a read of the database failed and `?` passed its error on.
-- `panic`: an `unwrap`, an `expect` or an index check failed.
pub data Fault : Type 0 where
  database panic : Fault

pub data Result {ℓ} (A : Type ℓ) : Type ℓ where
  ok : A → Result A
  err : Fault → Result A

infixl 5 ◌>>=◌
abbrev pub ◌>>=◌ {ℓ κ} : {A : Type ℓ} {B : Type κ} → Result A → (A → Result B) → Result B
ok a >>= f = f a
err e >>= f = err e

-- `unwrap` on an option.
abbrev pub unwrap {ℓ} : {A : Type ℓ} → Option A → Result A
unwrap none = err panic
unwrap (some a) = ok a

module _ {ℓ κ} {A : Type ℓ} {B : Type κ} where
  -- The parts of equal successful results are equal.
  pub ok_parts :
      {a c : A} {b d : B} → ◌≡◌ {A = Result (A × B)} (ok (a, b)) (ok (c, d)) → (a ≡ c) × (b ≡ d)
  ok_parts h = (cc, cc)

  -- If a chain succeeds, then so do its first part and the rest after it.
  pub >>=-eq-ok :
      (first : Result A) (rest : A → Result B) {out : B}
      → (first >>= rest) ≡ ok out
      → (got : A) × (first ≡ ok got) × (rest got ≡ ok out)
  >>=-eq-ok (err fault) rest h = cc
  >>=-eq-ok (ok got) rest h = (got, refl, h)

pub ok-injective {ℓ} : {A : Type ℓ} {a b : A} → ok a ≡ ok b → a ≡ b
ok-injective h = cc

pub unwrap-ok {ℓ} : {A : Type ℓ} (o : Option A) {a : A} → unwrap o ≡ ok a → o ≡ some a
unwrap-ok none h = cc
unwrap-ok (some b) h = cc
