-- ===== src/Sync/Completed.antt =====
-- What holds when the loop over the stages returns.
use martinez.Base.{
  ℕ, zero, suc, ◌-◌, ◌≤◌, ◌≡◌, refl, sym, ap, subst, ◌∙◌, inl, inr, Bool, true, false, Option, none,
  some, List, [], ◌∷◌, ◌==◌, ==-self, leb, if◌then◌else◌, unwrap_or, Result, ok, err, arith,
  Bool-cases, ==_iff,
}
use martinez.Sync.Types.{
  StageInput, ExecOutput, unwind_output, progress, Stage, Database, Outcome, ret, fail, unfinished,
  ◌>>=◌, lift,
}
use martinez.Sync.Loop.{
  Pass, Exit, reached, unwinding, least, is_at, Next, completed, again, commit_if, after_execute,
  execute_stage, execute_stages, after_stage, end_pass, iteration, go_on, run, unwind_stages, rev,
}
use martinez.Sync.Outcomes.{AllStages, AllStages-map}
use martinez.Sync.Unwound.{IsTable, saved_at}

-- A stage leaves the saved progress to the loop.
abbrev pub KeepsTable : {T W : Type 0} → Database T → Stage T W → Type 0
KeepsTable {T} {W} database stage =
    (input : StageInput) (t t' : T) (w w' : W) (out : ExecOutput)
    → stage.execute input t w ≡ ok (out, t', w')
    → (j : ℕ) → database.get_progress j t' ≡ database.get_progress j t

abbrev pub AreDistinct : {T W : Type 0} → List (Stage T W) → Type 0
AreDistinct [] = Unit
AreDistinct {T} {W} (stage ∷ rest) =
    AllStages (λ (other : Stage T W). (other.id == stage.id) ≡ false) rest × AreDistinct rest

lift-inv : {A : Type 0} (r : Result A) {a : A} → lift r ≡ ret a → r ≡ ok a
lift-inv (ok b) h = cc
lift-inv (err e) h = cc

ret-injective {ℓ} : {A : Type ℓ} {a b : A} → ret a ≡ ret b → a ≡ b
ret-injective h = cc

unbind {ℓ} :
    {A B : Type 0} {P : Type ℓ} (m : Outcome A) (f : A → Outcome B) {b : B}
    → (m >>= f) ≡ ret b
    → ((a : A) → m ≡ ret a → f a ≡ ret b → P)
    → P
unbind (ret a) f h k = k a refl h
unbind (fail e) f h k = absurd (cc)
unbind unfinished f h k = absurd (cc)

least_le : (o : Option ℕ) (p : ℕ) → (least o p ≤ p) × ((m : ℕ) → o ≡ some m → least o p ≤ m)
least_le none p = (omega arith, λ m e. absurd (cc))
least_le (some k) p = (omega arith, λ m e. ground (arith, e))

is_at-true :
    (m max_block : Option ℕ)
    → is_at m max_block ≡ true
    → (b : ℕ) × (m ≡ some b) × (max_block ≡ some b)
is_at-true none max_block h = absurd (cc)
is_at-true (some m) none h = absurd (cc)
is_at-true (some m) (some b) h = (b, ap some ((==_iff m b).0 h), refl)

chosen : (b : Bool) → (if b then completed else again none) ≡ completed → b ≡ true
chosen true h = refl
chosen false h = absurd (cc)

some-injective : {a b : ℕ} → ◌≡◌ {A = Option ℕ} (some a) (some b) → a ≡ b
some-injective h = cc

module _ {T W : Type 0} (database : Database T) (table : IsTable database) where
  -- A stage's saved progress, above the least one of the pass.
  abbrev HasReached : Pass T W → ℕ → Type 0
  HasReached pass id =
      (p m : ℕ) × (database.get_progress id pass.tx ≡ ok (some p))
      × (pass.minimum_progress ≡ some m)
      × (m ≤ p)

  -- The least progress went down only, and other stages' progress is as before.
  record Follows (id : ℕ) (before after : Pass T W) : Type 0 where
    lower :
        (m : ℕ)
        → before.minimum_progress ≡ some m
        → (n : ℕ) × (after.minimum_progress ≡ some n) × (n ≤ m)
    others :
        (j : ℕ)
        → (id == j) ≡ false
        → database.get_progress j after.tx ≡ database.get_progress j before.tx

  commit_if-keeps :
      (min_progress : ℕ) (start : Option ℕ) (p : ℕ) (before after : Pass T W)
      → commit_if database min_progress start p before ≡ ret after
      → ((j : ℕ) → database.get_progress j after.tx ≡ database.get_progress j before.tx)
        × (after.minimum_progress ≡ before.minimum_progress)
  unfolding commit_if
  commit_if-keeps min_progress start p before after h =
      elim (Bool-cases (leb min_progress (p - unwrap_or 0 start))) [
        | inr few ↦
            let same = ret-injective (rw few at h) in
            (
              λ j. ap (λ (q : Pass T W). database.get_progress j q.tx) (sym same),
              ap (λ (q : Pass T W). q.minimum_progress) (sym same),
            )
        | inl many ↦ unbind (lift (database.commit before.tx)) _ (rw many at h) (λ db commits r.
            unbind (lift (database.begin_mutable db)) _ r (λ tx begins r'.
              let same = ret-injective r' in
              (
                λ j.
                    ap (λ (q : Pass T W). database.get_progress j q.tx) (sym same)
                    ∙ table.begun db tx (lift-inv _ begins) j
                    ∙ table.committed before.tx db (lift-inv _ commits) j,
                ap (λ (q : Pass T W). q.minimum_progress) (sym same),
              )))
      ]

  then_Follows : (id : ℕ) (x y z : Pass T W) → Follows id x y → Follows id y z → Follows id x z
  then_Follows id x y z first second = record {
    lower = λ m e.
        let (k, e₁, le₁) = first.lower m e in
        let (n, e₂, le₂) = second.lower k e₁ in (n, e₂, omega arith);
    others = λ j other. second.others j other ∙ first.others j other;
  }

  after_execute-Advanced :
      (min_progress : ℕ) (stage : Stage T W) (start : Option ℕ)
      (rest : Pass T W → Outcome (Exit × Pass T W)) (out : ExecOutput)
      (before pass after : Pass T W) (p : ℕ)
      → ((j : ℕ) → database.get_progress j pass.tx ≡ database.get_progress j before.tx)
      → pass.minimum_progress ≡ before.minimum_progress
      → ((mid : Pass T W)
          → rest mid ≡ ret (reached p, after)
          → HasReached after stage.id × Follows stage.id mid after)
      → after_execute database min_progress stage start rest out pass ≡ ret (reached p, after)
      → HasReached after stage.id × Follows stage.id before after
  after_execute-Advanced min_progress stage start rest (unwind_output to) before pass after p same
        least₀ again' h =
      absurd (let bad = ret-injective h in cc)
  after_execute-Advanced min_progress stage start rest (progress q done) before pass after p same
        least₀ again' h =
      unbind (lift (database.save_progress stage.id q pass.tx)) _ h (λ tx saves r.
        unbind
          (commit_if database min_progress start q
            (record pass { tx = tx; minimum_progress = some (least pass.minimum_progress q) }))
          _ r
          (λ mid commits r'.
            let (table_kept, least_kept) = commit_if-keeps min_progress start q _ mid commits in
            let saved =
              saved_at database table stage.id q before.tx pass.tx tx same (lift-inv _ saves) in
            let (below_q, below) = least_le pass.minimum_progress q in
            let own = saved stage.id in
            let here : HasReached mid stage.id = (
              q,
              least pass.minimum_progress q,
              table_kept stage.id ∙ (rw ==-self at own),
              least_kept,
              below_q,
            ) in
            let moved : Follows stage.id before mid = record {
              lower = λ m e. (least pass.minimum_progress q, least_kept, below m (least₀ ∙ e));
              others = λ j other. let here = saved j in table_kept j ∙ (rw other at here);
            } in
            elim (Bool-cases done) [
              | inl last ↦
                  subst
                    (λ (q : Exit × Pass T W). HasReached q.1 stage.id × Follows stage.id before q.1)
                    (ret-injective (rw last at r')) (here, moved)
              | inr more ↦
                  let (reaches, follows) = again' mid (rw more at r') in
                  (reaches, then_Follows stage.id before mid after moved follows)
            ]))

  execute_stage-HasReached :
      (fuel min_progress : ℕ) (stage : Stage T W) (start : Option ℕ) (restarted : Bool)
      (previous : Option (ℕ × ℕ)) (pass after : Pass T W) (p : ℕ)
      → KeepsTable database stage
      → execute_stage database fuel min_progress stage start restarted previous pass
        ≡ ret (reached p, after)
      → HasReached after stage.id × Follows stage.id pass after
  unfolding execute_stage
  execute_stage-HasReached zero min_progress stage start restarted previous pass after p keeps h =
      absurd (cc)
  execute_stage-HasReached (suc fuel) min_progress stage start restarted previous pass after p keeps
        h =
      unbind (lift (database.get_progress stage.id pass.tx)) _ h (λ found _ r.
        unbind (lift (stage.execute _ pass.tx pass.world)) _ r (λ (out, tx, world) ran r'.
          after_execute-Advanced min_progress stage start
            (execute_stage database fuel min_progress stage start true previous) out pass
            (record pass { tx = tx; world = world }) after p
            (keeps _ pass.tx tx pass.world world out (lift-inv _ ran)) refl
            (λ mid looped.
              execute_stage-HasReached fuel min_progress stage start true previous mid after p keeps
                looped)
            r'))

  -- A stage that was done before, and whose progress is kept, is still above the least one.
  still-HasReached :
      (id other : ℕ) (before after : Pass T W)
      → (other == id) ≡ false
      → HasReached before id
      → Follows other before after
      → HasReached after id
  still-HasReached id other before after differs (p, m, found, least_is, le) follows =
      let (n, least_now, less) = follows.lower m least_is in
      (p, n, follows.others id differs ∙ found, least_now, omega arith)

  execute_stages-HasReached :
      (fuel min_progress : ℕ) (stages : List (Stage T W)) (previous : Option (ℕ × ℕ))
      (pass after : Pass T W)
      → AllStages (KeepsTable database) stages
      → AreDistinct stages
      → execute_stages database fuel min_progress stages previous pass ≡ ret (none, after)
      → AllStages (λ (stage : Stage T W). HasReached after stage.id) stages
        × ((id : ℕ)
            → HasReached pass id
            → AllStages (λ (stage : Stage T W). (stage.id == id) ≡ false) stages
            → HasReached after id)
  unfolding execute_stages
  execute_stages-HasReached fuel min_progress [] previous pass after keeps distinct h = (
    tt,
    λ id reaches none_here.
        subst (λ (q : Option ℕ × Pass T W). HasReached q.1 id) (ret-injective h) reaches,
  )
  execute_stages-HasReached fuel min_progress (stage ∷ rest) previous pass after (keep, keeps)
        (new, distinct) h =
      unbind (lift (database.get_progress stage.id pass.tx)) _ h (λ start _ r.
        unbind (execute_stage database fuel min_progress stage start false previous pass) _ r
          (λ result ran r'. by_exit start result ran r' (λ prev mid looped.
            execute_stages-HasReached fuel min_progress rest prev mid after keeps distinct looped)))
    where
      by_exit :
          (start : Option ℕ) (result : Exit × Pass T W)
          → execute_stage database fuel min_progress stage start false previous pass ≡ ret result
          → after_stage database stage.id (execute_stages database fuel min_progress rest) result
            ≡ ret (none, after)
          → ((prev : Option (ℕ × ℕ)) (mid : Pass T W)
              → execute_stages database fuel min_progress rest prev mid ≡ ret (none, after)
              → AllStages (λ (other : Stage T W). HasReached after other.id) rest
                × ((id : ℕ)
                    → HasReached mid id
                    → AllStages (λ (other : Stage T W). (other.id == id) ≡ false) rest
                    → HasReached after id))
          → AllStages (λ (other : Stage T W). HasReached after other.id) (stage ∷ rest)
            × ((id : ℕ)
                → HasReached pass id
                → AllStages (λ (other : Stage T W). (other.id == id) ≡ false) (stage ∷ rest)
                → HasReached after id)
      by_exit start (unwinding to, mid) ran r ih = absurd (let bad = ret-injective r in cc)
      by_exit start (reached p, mid) ran r ih =
          let (reaches, follows) =
            execute_stage-HasReached fuel min_progress stage start false previous pass mid p keep
              ran in
          let (all, kept) = ih (some (stage.id, p)) mid r in
          (
            (kept stage.id reaches new, all),
            λ id before (differs, others).
                kept id (still-HasReached id stage.id pass mid differs before follows) others,
          )

  -- The stages have saved at least the last block.
  abbrev pub IsComplete : Option ℕ → List (Stage T W) → T → Type 0
  IsComplete max_block stages db =
      (b : ℕ) × (max_block ≡ some b)
      × AllStages
          (λ (stage : Stage T W).
            (p : ℕ) × (database.get_progress stage.id db ≡ ok (some p)) × (b ≤ p))
          stages

  end_pass-IsComplete :
      (max_block : Option ℕ) (stages : List (Stage T W)) (result : Option ℕ × Pass T W) (db' : T)
      (w' : W)
      → ((after : Pass T W)
          → result ≡ (none, after)
          → AllStages (λ (stage : Stage T W). HasReached after stage.id) stages)
      → end_pass database max_block result ≡ ret (completed, db', w')
      → IsComplete max_block stages db'
  end_pass-IsComplete max_block stages (some to, pass) db' w' all h =
      absurd (let bad = ret-injective h in cc)
  end_pass-IsComplete max_block stages (none, pass) db' w' all h =
      unbind (lift (database.commit pass.tx)) _ h (λ db commits r.
        let (b, least_is, max_is) = is_at-true pass.minimum_progress max_block (
          chosen (is_at pass.minimum_progress max_block)
            (ap (λ (q : Next × T × W). q.0) (ret-injective r))) in
        (
          b,
          max_is,
          AllStages-map _ _ stages
              (λ stage (p, m, found, least_m, le). (
                p,
                ap (λ (q : Next × T × W). database.get_progress stage.id q.1)
                      (sym (ret-injective r))
                    ∙ table.committed pass.tx db (lift-inv _ commits) stage.id
                    ∙ found,
                subst (λ x. x ≤ p) (some-injective (sym least_m ∙ least_is)) le,
              ))
              (all pass refl),
        ))

  iteration-IsComplete :
      (fuel min_progress : ℕ) (max_block : Option ℕ) (stages : List (Stage T W))
      (unwind_to : Option ℕ) (db db' : T) (w w' : W)
      → AllStages (KeepsTable database) stages
      → AreDistinct stages
      → iteration database fuel min_progress max_block stages unwind_to db w
        ≡ ret (completed, db', w')
      → IsComplete max_block stages db'
  unfolding iteration
  iteration-IsComplete fuel min_progress max_block stages (some to) db db' w w' keeps distinct h =
      unbind (lift (database.begin_mutable db)) _ h (λ tx _ r.
        unbind (unwind_stages database (rev stages) to tx w) _ r (λ (tx₁, w₁) _ r₁.
          unbind (lift (database.commit tx₁)) _ r₁
            (λ db₁ _ r₂. absurd (let bad = ret-injective r₂ in cc))))
  iteration-IsComplete fuel min_progress max_block stages none db db' w w' keeps distinct h =
      unbind (lift (database.begin_mutable db)) _ h (λ tx _ r.
        unbind (execute_stages database fuel min_progress stages none _) _ r (λ result ran r₁.
          end_pass-IsComplete max_block stages result db' w'
            (λ after is_none.
              (execute_stages-HasReached fuel min_progress stages none _ after keeps distinct
                (ran ∙ ap ret is_none)).0)
            r₁))

  -- If no stage writes the saved progress and the numbers of the stages differ, the loop returns
  -- without an error only when a last block is set and every stage has saved that block or a later
  -- one as its progress, whatever the stages did before and however often they were unwound.
  pub run-IsComplete :
      (rounds fuel min_progress : ℕ) (max_block : Option ℕ) (stages : List (Stage T W))
      (unwind_to : Option ℕ) (db db' : T) (w w' : W)
      → AllStages (KeepsTable database) stages
      → AreDistinct stages
      → run database rounds fuel min_progress max_block stages unwind_to db w ≡ ret (db', w')
      → IsComplete max_block stages db'
  unfolding run
  run-IsComplete zero fuel min_progress max_block stages unwind_to db db' w w' keeps distinct h =
      absurd (cc)
  run-IsComplete (suc rounds) fuel min_progress max_block stages unwind_to db db' w w' keeps
        distinct h =
      unbind (iteration database fuel min_progress max_block stages unwind_to db w) _ h
        (λ result ran r. by_next result ran r (λ to db₁ w₁ looped.
          run-IsComplete rounds fuel min_progress max_block stages to db₁ db' w₁ w' keeps distinct
            looped))
    where
      by_next :
          (result : Next × T × W)
          → iteration database fuel min_progress max_block stages unwind_to db w ≡ ret result
          → go_on database (run database rounds fuel min_progress max_block stages) result
            ≡ ret (db', w')
          → ((to : Option ℕ) (db₁ : T) (w₁ : W)
              → run database rounds fuel min_progress max_block stages to db₁ w₁ ≡ ret (db', w')
              → IsComplete max_block stages db')
          → IsComplete max_block stages db'
      by_next (completed, db₁, w₁) ran r ih =
          subst (λ (q : T × W). IsComplete max_block stages q.0) (ret-injective r)
            (iteration-IsComplete fuel min_progress max_block stages unwind_to db db₁ w w₁ keeps
              distinct ran)
      by_next (again to, db₁, w₁) ran r ih = ih to db₁ w₁ r
