-- ===== src/Sync/Unwound.antt =====
-- An iteration of the loop that unwinds the stages.
use martinez.Base.{
  ℕ, zero, suc, ◌+◌, ◌≤◌, ◌<◌, ◌≡◌, refl, ap, subst, ◌∙◌, ◌⊎◌, inl, inr, false, Option, none, some,
  List, [], ◌∷◌, ◌==◌, ==-self, ltb, if◌then◌else◌, unwrap_or, ok, arith, Bool-cases, ==_iff,
}
use martinez.Sync.Types.{UnwindInput, Stage, Database, lift}
use martinez.Sync.Outcomes.{
  Ends, Ends-bind, Ends-map, Ends-lift, AllStages, AllStages-map, AllStages-rev, AllStages-of_rev,
}
use martinez.Sync.Loop.{rev, Next, again, unwind_while, unwind_stage, unwind_stages, iteration}
use martinez.Sync.Kept.{
  HasStage, HasStage-of_rev, IsLow, IsAbove, KeepsLow, then_KeepsLow, map-KeepsLow, around-KeepsLow,
  still-IsLow,
}

-- What is documented of the table: saved progress is read back, and a commit keeps it.
pub record IsTable {T : Type 0} (database : Database T) : Type 0 where
  pub saved :
      (id p : ℕ) (t t' : T)
      → database.save_progress id p t ≡ ok t'
      → (j : ℕ)
      → database.get_progress j t' ≡ (if id == j then ok (some p) else database.get_progress j t)
  pub committed :
      (t t' : T)
      → database.commit t ≡ ok t'
      → (j : ℕ) → database.get_progress j t' ≡ database.get_progress j t
  pub begun :
      (t t' : T)
      → database.begin_mutable t ≡ ok t'
      → (j : ℕ) → database.get_progress j t' ≡ database.get_progress j t

-- A stage that unwinds lowers its progress, and leaves the saved ones to the loop.
abbrev pub IsUnwindable : {T W : Type 0} → Database T → Stage T W → Type 0
IsUnwindable {T} {W} database stage =
    (input : UnwindInput) (t t' : T) (w w' : W) (p : ℕ)
    → input.unwind_to < input.stage_progress
    → stage.unwind input t w ≡ ok (p, t', w')
    → (p < input.stage_progress)
      × ((j : ℕ) → database.get_progress j t' ≡ database.get_progress j t)

-- What is saved after a stage has kept the table as it was.
pub saved_at :
    {T : Type 0} (database : Database T) (table : IsTable database) (id p : ℕ) (t t₁ t₂ : T)
    → ((j : ℕ) → database.get_progress j t₁ ≡ database.get_progress j t)
    → database.save_progress id p t₁ ≡ ok t₂
    → (j : ℕ)
    → database.get_progress j t₂ ≡ (if id == j then ok (some p) else database.get_progress j t)
saved_at database table id p t t₁ t₂ same saves j =
    table.saved id p t₁ t₂ saves j ∙ ap (λ r. if id == j then ok (some p) else r) (same j)

module _ {T W : Type 0} (database : Database T) (table : IsTable database) (to : ℕ) where
  unwind_while-Ends :
      (fuel : ℕ) (stage : Stage T W) (p : ℕ) (t : T) (w : W) (q : Option ℕ)
      → IsUnwindable database stage
      → p ≤ fuel + to
      → database.get_progress stage.id t ≡ ok q
      → unwrap_or 0 q ≡ p
      → Ends
          (λ (r : T × W).
            IsLow database to stage.id r.0
            × ((to < p) ⊎ (database.get_progress stage.id r.0 ≡ database.get_progress stage.id t))
            × ((j : ℕ)
                → (stage.id == j) ≡ false
                → database.get_progress j r.0 ≡ database.get_progress j t))
          (unwind_while database fuel stage to p t w)
  unfolding unwind_while
  unwind_while-Ends zero stage p t w q u enough found e =
      let low : ltb to p ≡ false = ground arith in
      rw low ((q, found, omega (arith, e)), inr refl, λ j other. refl)
  unwind_while-Ends (suc fuel) stage p t w q u enough found e = elim (Bool-cases (ltb to p)) [
    | inr low ↦ rw low ((q, found, ground (arith, low, e)), inr refl, λ j other. refl)
    | inl above ↦ rw above (
        Ends-bind _ _ (lift (stage.unwind (record { stage_progress = p; unwind_to = to }) t w)) _
          (Ends-lift _)
          (λ (p₁, t₁, w₁) unwound.
            let lower : to < p = ground (arith, above) in
            let (less, same) =
              u (record { stage_progress = p; unwind_to = to }) t t₁ w w₁ p₁ lower unwound in
            Ends-bind _ _ (lift (database.save_progress stage.id p₁ t₁)) _ (Ends-lift _)
              (λ t₂ saves.
                let after = saved_at database table stage.id p₁ t t₁ t₂ same saves in
                let own = after stage.id in
                let rest =
                  unwind_while-Ends fuel stage p₁ t₂ w₁ (some p₁) u (omega (arith, less, enough))
                    (rw ==-self at own) refl in
                Ends-map _ _ (unwind_while database fuel stage to p₁ t₂ w₁) rest
                  (λ r (low, own_entry, kept). (
                    low,
                    inl lower,
                    λ j other. let here = after j in kept j other ∙ (rw other at here),
                  )))))
  ]

  unwind_stage-Ends :
      (stage : Stage T W) (t : T) (w : W)
      → IsUnwindable database stage
      → Ends
          (λ (r : T × W).
            IsLow database to stage.id r.0 × KeepsLow database to (λ j. stage.id ≡ j) t r.0)
          (unwind_stage database stage to t w)
  unfolding unwind_stage
  unwind_stage-Ends stage t w u =
      Ends-bind _ _ (lift (database.get_progress stage.id t)) _ (Ends-lift _) (λ q found.
        Ends-map _ _ (unwind_while database (unwrap_or 0 q) stage to (unwrap_or 0 q) t w)
          (unwind_while-Ends (unwrap_or 0 q) stage (unwrap_or 0 q) t w q u (omega arith) found refl)
          (λ r (low, own, kept). (
            low,
            λ j. elim (Bool-cases (stage.id == j)) [
              | inl same ↦ entry j r q found low own ((==_iff stage.id j).0 same)
              | inr other ↦ inr (kept j other)
            ],
          )))
    where
      entry :
          (j : ℕ) (r : T × W) (q : Option ℕ)
          → database.get_progress stage.id t ≡ ok q
          → IsLow database to stage.id r.0
          → (to < unwrap_or 0 q)
            ⊎ (database.get_progress stage.id r.0 ≡ database.get_progress stage.id t)
          → stage.id ≡ j
          → ((stage.id ≡ j) × IsAbove database to j t × IsLow database to j r.0)
            ⊎ (database.get_progress j r.0 ≡ database.get_progress j t)
      entry j r q found low (inl above) same = inl (
          subst (λ i. (stage.id ≡ i) × IsAbove database to i t × IsLow database to i r.0) same
            (refl, (q, found, above), low))
      entry j r q found low (inr kept) same =
          inr (subst (λ i. database.get_progress i r.0 ≡ database.get_progress i t) same kept)

  unwind_stages-Ends :
      (stages : List (Stage T W)) (t : T) (w : W)
      → AllStages (IsUnwindable database) stages
      → Ends
          (λ (r : T × W).
            AllStages (λ (stage : Stage T W). IsLow database to stage.id r.0) stages
            × KeepsLow database to (HasStage stages) t r.0)
          (unwind_stages database stages to t w)
  unfolding unwind_stages
  unwind_stages-Ends [] t w all = (tt, λ j. inr refl)
  unwind_stages-Ends (stage ∷ rest) t w (first, others) =
      Ends-bind _ _ (unwind_stage database stage to t w) _ (unwind_stage-Ends stage t w first)
        (λ (t₁, w₁) (low, kept).
          Ends-map _ _ (unwind_stages database rest to t₁ w₁) (unwind_stages-Ends rest t₁ w₁ others)
            (λ r (lows, keeps). (
              (still-IsLow database to (HasStage rest) stage.id t₁ r.0 low keeps, lows),
              then_KeepsLow database to (λ j. stage.id ≡ j) (HasStage rest) t t₁ r.0 kept keeps,
            )))

  -- If the table reads back what was saved, and a stage that unwinds lowers its progress each time
  -- and leaves the saved progress to the loop, an iteration that unwinds to a point ends: with an
  -- error, or with a commit and no further request, where every stage has at most the point as its
  -- progress, and only the entry of a listed stage that was above the point can have changed: every
  -- other saved progress, that of a stage at or below the point as well, is as it was before.
  pub iteration-Ends :
      (fuel min_progress : ℕ) (max_block : Option ℕ) (stages : List (Stage T W)) (db : T) (w : W)
      → AllStages (IsUnwindable database) stages
      → Ends
          (λ (r : Next × T × W).
            (r.0 ≡ again none)
            × AllStages (λ (stage : Stage T W). IsLow database to stage.id r.1) stages
            × KeepsLow database to (HasStage stages) db r.1)
          (iteration database fuel min_progress max_block stages (some to) db w)
  unfolding iteration
  iteration-Ends fuel min_progress max_block stages db w all =
      Ends-bind _ _ (lift (database.begin_mutable db)) _ (Ends-lift _) (λ t begins.
        Ends-bind _ _ (unwind_stages database (rev stages) to t w) _
          (unwind_stages-Ends (rev stages) t w (AllStages-rev _ stages all))
          (λ (t₁, w₁) (lows, keeps).
            Ends-bind _ _ (lift (database.commit t₁)) _ (Ends-lift _) (λ db₁ commits.
              let kept : KeepsLow database to (HasStage stages) t₁ db₁ =
                λ j. inr (table.committed t₁ db₁ commits j) in
              (
                refl,
                AllStages-map (λ (stage : Stage T W). IsLow database to stage.id t₁)
                    (λ (stage : Stage T W). IsLow database to stage.id db₁) stages
                    (λ stage low.
                      still-IsLow database to (HasStage stages) stage.id t₁ db₁ low kept)
                    (AllStages-of_rev (λ (stage : Stage T W). IsLow database to stage.id t₁) stages
                      lows),
                around-KeepsLow database to (HasStage stages) db t t₁ db₁ (table.begun db t begins)
                    (map-KeepsLow database to (HasStage (rev stages)) (HasStage stages) t t₁
                      (HasStage-of_rev stages) keeps)
                    (table.committed t₁ db₁ commits),
              ))))
