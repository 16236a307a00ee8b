-- ===== src/Sync/Kept.antt =====
-- What the unwinding of stages changes in the saved progress, and what it keeps.
use martinez.Base.{
  ℕ, ◌≤◌, ◌<◌, ◌≡◌, sym, ◌∙◌, ◌⊎◌, inl, inr, Option, List, [], ◌∷◌, ◌++◌, unwrap_or, ok,
}
use martinez.Sync.Types.{Stage, Database}
use martinez.Sync.Loop.{rev}

-- The id is one of a stage.
abbrev pub HasStage : {T W : Type 0} → List (Stage T W) → ℕ → Type 0
HasStage [] j = ⊥
HasStage (stage ∷ rest) j = (stage.id ≡ j) ⊎ HasStage rest j

HasStage-append :
    {T W : Type 0} (xs ys : List (Stage T W)) (j : ℕ)
    → HasStage (xs ++ ys) j
    → HasStage xs j ⊎ HasStage ys j
HasStage-append [] ys j h = inr h
HasStage-append (x ∷ xs) ys j (inl same) = inl (inl same)
HasStage-append (x ∷ xs) ys j (inr later) = elim (HasStage-append xs ys j later) [
  | inl left ↦ inl (inr left)
  | inr right ↦ inr right
]

pub HasStage-of_rev :
    {T W : Type 0} (stages : List (Stage T W)) (j : ℕ) → HasStage (rev stages) j → HasStage stages j
HasStage-of_rev [] j h = h
HasStage-of_rev (stage ∷ rest) j h = elim (HasStage-append (rev rest) (stage ∷ []) j h) [
  | inl later ↦ inr (HasStage-of_rev rest j later)
  | inr (inl same) ↦ inl same
  | inr (inr none_left) ↦ absurd none_left
]

module _ {T : Type 0} (database : Database T) (to : ℕ) where
  -- The progress of a stage is at most the point.
  abbrev pub IsLow : ℕ → T → Type 0
  IsLow id t = (q : Option ℕ) × (database.get_progress id t ≡ ok q) × (unwrap_or 0 q ≤ to)

  -- The saved progress is above the point.
  abbrev pub IsAbove : ℕ → T → Type 0
  IsAbove id t = (q : Option ℕ) × (database.get_progress id t ≡ ok q) × (to < unwrap_or 0 q)

  -- What is listed and was above the point is low, and all else is as it was.
  abbrev pub KeepsLow : (ℕ → Type 0) → T → T → Type 0
  KeepsLow Listed t t' =
      (j : ℕ)
      → (Listed j × IsAbove j t × IsLow j t')
        ⊎ (database.get_progress j t' ≡ database.get_progress j t)

  pub then_KeepsLow :
      (First Second : ℕ → Type 0) (t u v : T)
      → KeepsLow First t u
      → KeepsLow Second u v
      → KeepsLow (λ j. First j ⊎ Second j) t v
  then_KeepsLow First Second t u v first second j = elim (second j) [
    | inl (listed, (q, found, over), low) ↦ elim (first j) [
      | inl (listed', above, yet) ↦ inl (inl listed', above, low)
      | inr before ↦ inl (inr listed, (q, sym before ∙ found, over), low)
    ]
    | inr same ↦ elim (first j) [
      | inl (listed, above, (q, found, low)) ↦ inl (inl listed, above, (q, same ∙ found, low))
      | inr before ↦ inr (same ∙ before)
    ]
  ]

  pub map-KeepsLow :
      (First Second : ℕ → Type 0) (t t' : T)
      → ((j : ℕ) → First j → Second j)
      → KeepsLow First t t'
      → KeepsLow Second t t'
  map-KeepsLow First Second t t' f keeps j = elim (keeps j) [
    | inl (listed, above, low) ↦ inl (f j listed, above, low)
    | inr same ↦ inr same
  ]

  -- Before and after, the table is only read.
  pub around-KeepsLow :
      (Listed : ℕ → Type 0) (t u v w : T)
      → ((j : ℕ) → database.get_progress j u ≡ database.get_progress j t)
      → KeepsLow Listed u v
      → ((j : ℕ) → database.get_progress j w ≡ database.get_progress j v)
      → KeepsLow Listed t w
  around-KeepsLow Listed t u v w before keeps after j = elim (keeps j) [
    | inl (listed, (p, there, over), (q, found, low)) ↦
        inl (listed, (p, sym (before j) ∙ there, over), (q, after j ∙ found, low))
    | inr same ↦ inr (after j ∙ same ∙ before j)
  ]

  pub still-IsLow :
      (Listed : ℕ → Type 0) (id : ℕ) (t t' : T) → IsLow id t → KeepsLow Listed t t' → IsLow id t'
  still-IsLow Listed id t t' (q, found, low) keeps = elim (keeps id) [
    | inl (listed, above, yet) ↦ yet
    | inr same ↦ (q, same ∙ found, low)
  ]
