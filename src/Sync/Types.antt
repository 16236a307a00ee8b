-- ===== src/Sync/Types.antt =====
-- stagedsync/stage.rs and the record of stagedsync/mod.rs. A block number and the number of a stage
-- are natural numbers.
use martinez.Base.{ℕ, Bool, Option, Fault, Result, ok, err}

pub record StageInput : Type 0 where
  pub restarted : Bool
  pub start_progress : Option ℕ
  pub previous_stage : Option (ℕ × ℕ)
  pub stage_progress : Option ℕ

pub record UnwindInput : Type 0 where
  pub stage_progress : ℕ
  pub unwind_to : ℕ

pub data ExecOutput : Type 0 where
  unwind_output : (unwind_to : ℕ) → ExecOutput
  progress : (stage_progress : ℕ) (done : Bool) → ExecOutput

-- A transaction of the database holds a `T`; `W` is what the stages keep themselves, which an abort
-- of the transaction does not take back.
pub record Stage (T W : Type 0) : Type 0 where
  pub id : ℕ
  pub execute : StageInput → T → W → Result (ExecOutput × T × W)
  pub unwind : UnwindInput → T → W → Result (ℕ × T × W)

-- The table of the stages' progress, and `commit`.
pub record Database (T : Type 0) : Type 0 where
  pub begin_mutable : T → Result T
  pub get_progress : ℕ → T → Result (Option ℕ)
  pub save_progress : ℕ → ℕ → T → Result T
  pub commit : T → Result T

-- What a loop gives: a value, an error that `?` passes on, or neither within the fuel.
pub data Outcome {ℓ} (A : Type ℓ) : Type ℓ where
  ret : A → Outcome A
  fail : Fault → Outcome A
  unfinished : Outcome A

infixl 5 ◌>>=◌
abbrev pub ◌>>=◌ {ℓ κ} : {A : Type ℓ} {B : Type κ} → Outcome A → (A → Outcome B) → Outcome B
ret a >>= f = f a
fail e >>= f = fail e
unfinished >>= f = unfinished

abbrev pub lift {ℓ} : {A : Type ℓ} → Result A → Outcome A
lift (ok a) = ret a
lift (err e) = fail e
