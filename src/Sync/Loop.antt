-- ===== src/Sync/Loop.antt =====
-- stagedsync/mod.rs: `StagedSync::run`.
use Prim.Native.Nat.{min}
use martinez.Base.{
  ℕ, zero, suc, ◌-◌, Bool, true, false, Option, none, some, List, [], ◌∷◌, ◌++◌, ◌==◌, ltb, leb,
  if◌then◌else◌, unwrap_or,
}
use martinez.Sync.Types.{
  ExecOutput, unwind_output, progress, Stage, Database, Outcome, ret, unfinished, ◌>>=◌, lift,
}

abbrev pub rev {ℓ} : {A : Type ℓ} → List A → List A
rev [] = []
rev (x ∷ xs) = rev xs ++ x ∷ []

abbrev pub least : Option ℕ → ℕ → ℕ
least none p = p
least (some m) p = min m p

-- What a pass over the stages has: the committed database, the open transaction, what the stages
-- keep, and the least progress that a stage has reported.
pub record Pass (T W : Type 0) : Type 0 where
  pub db : T
  pub tx : T
  pub world : W
  pub minimum_progress : Option ℕ

-- `break stage_progress`, or `continue 'run_loop` with a point to unwind to.
pub data Exit : Type 0 where
  reached : ℕ → Exit
  unwinding : ℕ → Exit

-- What an iteration of `run` ends with: `return Ok(())`, or the next one.
pub data Next : Type 0 where
  completed : Next
  again : (unwind_to : Option ℕ) → Next

-- `minimum_progress == max_block`, where both are there.
abbrev pub is_at : Option ℕ → Option ℕ → Bool
is_at none max_block = false
is_at (some m) none = false
is_at (some m) (some b) = m == b

module _ {T W : Type 0} (database : Database T) where
  -- One round of the loop, and the rest of it.
  abbrev pub unwind_once :
      Stage T W → ℕ → (ℕ → T → W → Outcome (T × W)) → ℕ → T → W → Outcome (T × W)
  unwind_once stage to rest stage_progress tx world = do
    (p, tx₁, w₁) ←
        lift (stage.unwind (record { stage_progress = stage_progress; unwind_to = to }) tx world)
    tx₂ ← lift (database.save_progress stage.id p tx₁)
    rest p tx₂ w₁

  -- `while stage_progress > to`.
  unfoldable pub unwind_while : ℕ → Stage T W → ℕ → ℕ → T → W → Outcome (T × W)
  unwind_while zero stage to stage_progress tx world =
      if ltb to stage_progress then unfinished else ret (tx, world)
  unwind_while (suc fuel) stage to stage_progress tx world =
      if ltb to stage_progress
      then unwind_once stage to (unwind_while fuel stage to) stage_progress tx world
      else ret (tx, world)

  -- The fuel is the progress: a stage that lowers its progress each time needs no more rounds.
  unfoldable pub unwind_stage : Stage T W → ℕ → T → W → Outcome (T × W)
  unwind_stage stage to tx world = do
    found ← lift (database.get_progress stage.id tx)
    unwind_while (unwrap_or 0 found) stage to (unwrap_or 0 found) tx world

  unfoldable pub unwind_stages : List (Stage T W) → ℕ → T → W → Outcome (T × W)
  unwind_stages [] to tx world = ret (tx, world)
  unwind_stages (stage ∷ rest) to tx world = do
    (tx₁, w₁) ← unwind_stage stage to tx world
    unwind_stages rest to tx₁ w₁

  abbrev pub restart : Pass T W → Outcome (Pass T W)
  restart pass = do
    db ← lift (database.commit pass.tx)
    tx ← lift (database.begin_mutable db)
    ret (record pass { db = db; tx = tx })

  -- Commit and restart the transaction, if the stage has made enough progress since its start.
  unfoldable pub commit_if : ℕ → Option ℕ → ℕ → Pass T W → Outcome (Pass T W)
  commit_if min_progress start_progress stage_progress pass =
      if leb min_progress (stage_progress - unwrap_or 0 start_progress)
      then restart pass
      else ret pass

  -- What is done with the output of a stage; `rest` invokes the stage again.
  abbrev pub after_execute :
      ℕ
      → Stage T W
      → Option ℕ
      → (Pass T W → Outcome (Exit × Pass T W))
      → ExecOutput
      → Pass T W
      → Outcome (Exit × Pass T W)
  after_execute min_progress stage start rest (unwind_output to) pass = ret (unwinding to, pass)
  after_execute min_progress stage start rest (progress p done) pass = do
    tx ← lift (database.save_progress stage.id p pass.tx)
    pass₁ ←
        commit_if min_progress start p
          (record pass { tx = tx; minimum_progress = some (least pass.minimum_progress p) })
    if done then ret (reached p, pass₁) else rest pass₁

  -- Re-invoke the stage until it is done or wants to unwind.
  unfoldable pub execute_stage :
      ℕ → ℕ → Stage T W → Option ℕ → Bool → Option (ℕ × ℕ) → Pass T W → Outcome (Exit × Pass T W)
  execute_stage zero min_progress stage start restarted previous pass = unfinished
  execute_stage (suc fuel) min_progress stage start restarted previous pass = do
    found ← lift (database.get_progress stage.id pass.tx)
    (output, tx, world) ← lift (
        stage.execute
          (record {
            restarted = restarted;
            start_progress = start;
            previous_stage = previous;
            stage_progress = found;
          })
          pass.tx pass.world)
    after_execute min_progress stage start
        (execute_stage fuel min_progress stage start true previous) output
        (record pass { tx = tx; world = world })

  abbrev pub after_stage :
      ℕ
      → (Option (ℕ × ℕ) → Pass T W → Outcome (Option ℕ × Pass T W))
      → Exit × Pass T W
      → Outcome (Option ℕ × Pass T W)
  after_stage id rest (unwinding to, pass) = ret (some to, pass)
  after_stage id rest (reached p, pass) = rest (some (id, p)) pass

  -- The stages in direct order, up to one that wants to unwind.
  unfoldable pub execute_stages :
      ℕ → ℕ → List (Stage T W) → Option (ℕ × ℕ) → Pass T W → Outcome (Option ℕ × Pass T W)
  execute_stages fuel min_progress [] previous pass = ret (none, pass)
  execute_stages fuel min_progress (stage ∷ rest) previous pass = do
    start ← lift (database.get_progress stage.id pass.tx)
    result ← execute_stage fuel min_progress stage start false previous pass
    after_stage stage.id (execute_stages fuel min_progress rest) result

  -- The end of a pass: a commit, and `return` at the last block.
  abbrev pub end_pass : Option ℕ → Option ℕ × Pass T W → Outcome (Next × T × W)
  end_pass max_block (some to, pass) = ret (again (some to), pass.db, pass.world)
  end_pass max_block (none, pass) = do
    db ← lift (database.commit pass.tx)
    ret (if is_at pass.minimum_progress max_block then completed else again none, db, pass.world)

  -- One iteration of `run_loop`, on the committed database.
  unfoldable pub iteration :
      ℕ → ℕ → Option ℕ → List (Stage T W) → Option ℕ → T → W → Outcome (Next × T × W)
  iteration fuel min_progress max_block stages (some to) db world = do
    tx ← lift (database.begin_mutable db)
    (tx₁, w₁) ← unwind_stages (rev stages) to tx world
    db₁ ← lift (database.commit tx₁)
    ret (again none, db₁, w₁)
  iteration fuel min_progress max_block stages none db world = do
    tx ← lift (database.begin_mutable db)
    result ←
        execute_stages fuel min_progress stages none
          (record { db = db; tx = tx; world = world; minimum_progress = none })
    end_pass max_block result

  abbrev pub go_on : (Option ℕ → T → W → Outcome (T × W)) → Next × T × W → Outcome (T × W)
  go_on rest (completed, db, world) = ret (db, world)
  go_on rest (again to, db, world) = rest to db world

  -- `run`, for a number of iterations.
  unfoldable pub run : ℕ → ℕ → ℕ → Option ℕ → List (Stage T W) → Option ℕ → T → W → Outcome (T × W)
  run zero fuel min_progress max_block stages unwind_to db world = unfinished
  run (suc rounds) fuel min_progress max_block stages unwind_to db world = do
    result ← iteration fuel min_progress max_block stages unwind_to db world
    go_on (run rounds fuel min_progress max_block stages) result
