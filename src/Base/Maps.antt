-- ===== src/Base/Maps.antt =====
-- A HashMap keyed by numbers is the function that looks a key up; a HashSet is its test.
use Prim.Native.Nat.{ℕ}
use mathlib.Core.Bool.{Bool, true, false}
use mathlib.Core.Option.{Option, none, some}
use martinez.Base.Tests.{◌==◌, if◌then◌else◌}

abbrev pub Map {ℓ} : Type ℓ → Type ℓ
Map V = ℕ → Option V

abbrev pub Set : Type 0
Set = ℕ → Bool

module _ {ℓ} {V : Type ℓ} where
  abbrev pub update : (ℕ → V) → ℕ → V → ℕ → V
  update m k v j = if k == j then v else m j

abbrev pub no_key {ℓ} : {V : Type ℓ} → Map V
no_key k = none

abbrev pub no_element : Set
no_element k = false

module _ {ℓ} {V : Type ℓ} where
  -- `insert` and `remove` of a map.
  abbrev pub insert : ℕ → V → Map V → Map V
  insert k v m = update m k (some v)

  abbrev pub remove : ℕ → Map V → Map V
  remove k m = update m k none

  abbrev pub is_some : Option V → Bool
  is_some none = false
  is_some (some v) = true

  -- `unwrap_or`, and with the default value `unwrap_or_default`.
  abbrev pub unwrap_or : V → Option V → V
  unwrap_or d none = d
  unwrap_or d (some v) = v
