-- ===== src/Sync/Tests.antt =====
-- The loop with two stages, and the theorems at it.
use martinez.Base.{
  ℕ, ◌+◌, ◌-◌, ◌<◌, ◌≡◌, refl, sym, ap, ◌∙◌, Bool, true, false, Option, none, some, List, [], ◌∷◌,
  ◌==◌, leb, if◌then◌else◌, Map, no_key, insert, unwrap_or, Result, ok, arith,
}
use martinez.Sync.Types.{
  ExecOutput, UnwindInput, progress, unwind_output, Stage, Database, Outcome, ret,
}
use martinez.Sync.Loop.{
  unwind_while, unwind_stage, unwind_stages, commit_if, execute_stage, execute_stages, iteration,
  run, Next, again,
}
use martinez.Sync.Outcomes.{Ends, AllStages}
use martinez.Sync.Kept.{IsLow, HasStage, KeepsLow}
use martinez.Sync.Unwound.{IsTable, IsUnwindable, iteration-Ends}
use martinez.Sync.Completed.{KeepsTable, IsComplete, run-IsComplete}

-- The progress of the stages, as a map.
abbrev table : Database (Map ℕ)
table = record {
  begin_mutable = λ t. ok t;
  get_progress = λ id t. ok (t id);
  save_progress = λ id p t. ok (insert id p t);
  commit = λ t. ok t;
}

ok-same : {t t' : Map ℕ} → ok t ≡ ok t' → t ≡ t'
ok-same h = cc

put :
    (b : Bool) (p : ℕ) (old : Option ℕ)
    → ◌≡◌ {A = Result (Option ℕ)}
        (ok (if b then some p else old))
        (if b then ok (some p) else ok old)
put true p old = refl
put false p old = refl

table-IsTable : IsTable table
table-IsTable = record {
  saved = λ id p t t' e j. ap (λ (m : Map ℕ). ok (m j)) (sym (ok-same e)) ∙ put (id == j) p (t j);
  committed = λ t t' e j. ap (λ (m : Map ℕ). ok (m j)) (sym (ok-same e));
  begun = λ t t' e j. ap (λ (m : Map ℕ). ok (m j)) (sym (ok-same e));
}

-- A stage that goes on by two blocks, up to block 4, and unwinds by one.
abbrev by_two : ℕ → Stage (Map ℕ) ℕ
by_two id = record {
  id = id;
  execute = λ input t w.
      let p = unwrap_or 0 input.stage_progress in
      ok (progress (if leb 4 (p + 2) then 4 else p + 2) (leb 4 (p + 2)), t, w);
  unwind = λ input t w. ok (input.stage_progress - 1, t, w + 1);
}

-- A stage that asks once, when nothing was unwound yet, to go back to block 1.
abbrev checks : Stage (Map ℕ) ℕ
checks = record {
  id = 9;
  execute = λ input t w. ok (if w == 0 then unwind_output 1 else progress 4 true, t, w);
  unwind = λ input t w. ok (input.stage_progress - 1, t, w + 1);
}

abbrev stages : List (Stage (Map ℕ) ℕ)
stages = by_two 3 ∷ checks ∷ []

abbrev or_empty : Outcome (Map ℕ × ℕ) → Map ℕ × ℕ
or_empty (ret r) = r
or_empty other = (no_key, 0)

abbrev synced : Map ℕ × ℕ
synced = or_empty (run table 4 5 0 (some 4) stages none no_key 0)

-- The first stage reaches block 4, is unwound by three blocks, and reaches it again. It reports block
-- 3 on its way, so the loop makes one more pass before it returns.
unwound : synced.1 ≡ 3
unfolding run iteration execute_stages execute_stage commit_if unwind_stages unwind_stage
    unwind_while
unwound = refl

ok-parts :
    {p q : ℕ} {t t' : Map ℕ} {w w' : ℕ}
    → ◌≡◌ {A = Result (ℕ × Map ℕ × ℕ)} (ok (p, t, w)) (ok (q, t', w'))
    → (p ≡ q) × (t ≡ t')
ok-parts h = (cc, cc)

ok-table :
    {o q : ExecOutput} {t t' : Map ℕ} {w w' : ℕ}
    → ◌≡◌ {A = Result (ExecOutput × Map ℕ × ℕ)} (ok (o, t, w)) (ok (q, t', w'))
    → t ≡ t'
ok-table h = cc

stages-IsUnwindable : AllStages (IsUnwindable table) stages
stages-IsUnwindable = (lowers, (lowers, tt))
  where
    lowers :
        (input : UnwindInput) (t t' : Map ℕ) (w w' : ℕ) (p : ℕ)
        → input.unwind_to < input.stage_progress
        → ◌≡◌ {A = Result (ℕ × Map ℕ × ℕ)}
            (ok (input.stage_progress - 1, t, w + 1))
            (ok (p, t', w'))
        → (p < input.stage_progress) × ((j : ℕ) → table.get_progress j t' ≡ table.get_progress j t)
    lowers input t t' w w' p above e =
        let (less, same) = ok-parts e in
        (omega (arith, less, above), λ j. ap (λ (m : Map ℕ). ok (m j)) (sym same))

stages-KeepsTable : AllStages (KeepsTable table) stages
stages-KeepsTable = (
  λ input t t' w w' out e j. ap (λ (m : Map ℕ). ok (m j)) (sym (ok-table e)),
  (λ input t t' w w' out e j. ap (λ (m : Map ℕ). ok (m j)) (sym (ok-table e)), tt),
)

-- The first stage is at block 4, the second at block 2.
abbrev ahead : Map ℕ
ahead = insert 3 4 (insert 9 2 no_key)

iteration-Ends_example :
    Ends
      (λ (r : Next × Map ℕ × ℕ).
        (r.0 ≡ again none)
        × AllStages (λ (stage : Stage (Map ℕ) ℕ). IsLow table 1 stage.id r.1) stages
        × KeepsLow table 1 (HasStage stages) ahead r.1)
      (iteration table 5 0 (some 4) stages (some 1) ahead 0)
iteration-Ends_example =
    iteration-Ends table table-IsTable 1 5 0 (some 4) stages ahead 0 stages-IsUnwindable

run-IsComplete_example : IsComplete table table-IsTable (some 4) stages synced.0
unfolding run iteration execute_stages execute_stage commit_if unwind_stages unwind_stage
    unwind_while
run-IsComplete_example =
    run-IsComplete table table-IsTable 4 5 0 (some 4) stages none no_key synced.0 0 synced.1
      stages-KeepsTable ((refl, tt), (tt, tt)) refl
