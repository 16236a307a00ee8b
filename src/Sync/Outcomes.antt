-- ===== src/Sync/Outcomes.antt =====
-- Facts on the outcome of a loop, and on all stages of a list.
use martinez.Base.{List, [], ◌∷◌, ◌++◌, ◌≡◌, refl, Result, ok, err}
use martinez.Sync.Types.{Stage, Outcome, ret, fail, unfinished, ◌>>=◌, lift}
use martinez.Sync.Loop.{rev}

-- It ends, with an error or with a value that has the property.
abbrev pub Ends {ℓ} : {A : Type ℓ} → (A → Type 0) → Outcome A → Type 0
Ends P (ret a) = P a
Ends P (fail e) = Unit
Ends P unfinished = ⊥

pub Ends-bind {ℓ κ} :
    {A : Type ℓ} {B : Type κ} (P : A → Type 0) (Q : B → Type 0) (m : Outcome A) (f : A → Outcome B)
    → Ends P m
    → ((a : A) → P a → Ends Q (f a))
    → Ends Q (m >>= f)
Ends-bind P Q (ret a) f h k = k a h
Ends-bind P Q (fail e) f h k = tt
Ends-bind P Q unfinished f h k = h

pub Ends-map {ℓ} :
    {A : Type ℓ} (P Q : A → Type 0) (m : Outcome A) → Ends P m → ((a : A) → P a → Q a) → Ends Q m
Ends-map P Q (ret a) h k = k a h
Ends-map P Q (fail e) h k = tt
Ends-map P Q unfinished h k = h

pub Ends-lift : {A : Type 0} (r : Result A) → Ends (λ a. r ≡ ok a) (lift r)
Ends-lift (ok a) = refl
Ends-lift (err e) = tt

abbrev pub AllStages : {T W : Type 0} → (Stage T W → Type 0) → List (Stage T W) → Type 0
AllStages P [] = Unit
AllStages P (stage ∷ rest) = P stage × AllStages P rest

module _ {T W : Type 0} where
  pub AllStages-map :
      (P Q : Stage T W → Type 0) (xs : List (Stage T W))
      → ((stage : Stage T W) → P stage → Q stage)
      → AllStages P xs
      → AllStages Q xs
  AllStages-map P Q [] k h = tt
  AllStages-map P Q (x ∷ xs) k h = (k x h.0, AllStages-map P Q xs k h.1)

  AllStages-append :
      (P : Stage T W → Type 0) (xs ys : List (Stage T W))
      → AllStages P xs
      → AllStages P ys
      → AllStages P (xs ++ ys)
  AllStages-append P [] ys h k = k
  AllStages-append P (x ∷ xs) ys h k = (h.0, AllStages-append P xs ys h.1 k)

  pub AllStages-rev :
      (P : Stage T W → Type 0) (xs : List (Stage T W)) → AllStages P xs → AllStages P (rev xs)
  AllStages-rev P [] h = tt
  AllStages-rev P (x ∷ xs) h =
      AllStages-append P (rev xs) (x ∷ []) (AllStages-rev P xs h.1) (h.0, tt)

  AllStages-split :
      (P : Stage T W → Type 0) (xs ys : List (Stage T W))
      → AllStages P (xs ++ ys)
      → AllStages P xs × AllStages P ys
  AllStages-split P [] ys h = (tt, h)
  AllStages-split P (x ∷ xs) ys h =
      let (front, back) = AllStages-split P xs ys h.1 in ((h.0, front), back)

  pub AllStages-of_rev :
      (P : Stage T W → Type 0) (xs : List (Stage T W)) → AllStages P (rev xs) → AllStages P xs
  AllStages-of_rev P [] h = tt
  AllStages-of_rev P (x ∷ xs) h =
      let (front, back) = AllStages-split P (rev xs) (x ∷ []) h in
      (back.0, AllStages-of_rev P xs front)
