-- ===== src/State/Tests.antt =====
-- Runs of the block state on concrete inputs, and the theorems at them.
use martinez.Base.{
  ℕ, ◌+◌, ◌%◌, ◌^◌, arith, none, some, ◌≡◌, refl, [], ◌∷◌, ◌==◌, if◌then◌else◌, Result, ok, err,
  panic,
}
use martinez.State.Types.{Address, Account, Db, IntraBlockState, new}
use martinez.State.Objects.{get_object, ensure_object, get_or_create_object}
use martinez.State.Accounts.{
  exists, get_balance, touch, change_balance, set_balance, add_to_balance, subtract_from_balance,
  create_contract, destruct, destruct_selfdestructs,
}
use martinez.State.Slots.{
  get_storage, get_current_storage, get_original_storage, set_storage, finalize_transaction,
}
use martinez.State.Journal.{take_snapshot, revert, pop_revert, revert_loop, revert_to_snapshot}
use martinez.State.Extends.{IsCounted}
use martinez.State.Runs.{Step, Run, start, step}
use martinez.State.Revert.{Restored, revert-Restored}
use martinez.State.Answers.{answer, SameAnswers, revert-SameAnswers}
use martinez.State.Effects.{finalize_transaction_lem}
use martinez.State.Balances.{subtract_from_balance-add_to_balance}
use martinez.State.Lives.{
  IsNew, create_contract_lem, Destroyed, IsAbsent, destruct_selfdestructs_lem,
}

abbrev rich : Account
rich = record { nonce = 4; balance = 1000; code_hash = 77 }

-- One account with code; every slot of it holds 5.
abbrev db : Db
db = record {
  read_account = λ a. if a == 1 then ok (some rich) else ok none;
  read_code = λ h. ok (1 ∷ []);
  read_storage = λ a k. ok 5;
  keccak256 = λ code. 99;
}

new-IsCounted : IsCounted new
new-IsCounted a e = cc

or_new : Result IntraBlockState → IntraBlockState
or_new (ok s) = s
or_new (err e) = new

abbrev s₁ : IntraBlockState
s₁ = or_new (set_balance db 2 30 new)

abbrev s₂ : IntraBlockState
s₂ = or_new (set_storage db 1 8 6 s₁)

abbrev s₃ : IntraBlockState
s₃ = or_new (create_contract db 1 s₂)

run₃ : Run db new s₃
unfolding or_new set_balance change_balance touch get_or_create_object ensure_object get_object
    exists set_storage get_current_storage get_storage create_contract
run₃ =
    step (step (step start (Step.set_balance 2 30 refl)) (Step.set_storage _ 1 8 6 refl refl))
      (Step.create_contract 1 refl)

revert-Restored_example :
    (x : IntraBlockState) × (revert_to_snapshot (take_snapshot new) s₃ ≡ ok x) × Restored db new x
revert-Restored_example = revert-Restored db new s₃ new-IsCounted run₃

abbrev back : IntraBlockState
back = or_new (revert_to_snapshot (take_snapshot new) s₃)

revert-SameAnswers_example : SameAnswers db new back
unfolding or_new set_balance change_balance touch get_or_create_object ensure_object get_object
    exists set_storage get_current_storage get_storage create_contract take_snapshot
    revert_to_snapshot revert_loop pop_revert revert
revert-SameAnswers_example = revert-SameAnswers db new s₃ back new-IsCounted run₃ refl

-- A snapshot that is ahead of the journal makes the revert panic.
stale_snapshot : revert_to_snapshot (take_snapshot s₁) new ≡ err panic
unfolding or_new set_balance change_balance touch get_or_create_object ensure_object get_object
    take_snapshot revert_to_snapshot
stale_snapshot = refl

abbrev wei : ℕ
wei = 50

abbrev held : ℕ
held = 1000

held_before : answer (get_balance db 1 s₁) ≡ ok held
unfolding or_new set_balance change_balance touch get_or_create_object ensure_object get_object
    get_balance
held_before = refl

-- Account 1 holds 1000; it gets 50 and gives them back.
subtract_from_balance-add_to_balance_example :
    (t : IntraBlockState) × (u : IntraBlockState) × (add_to_balance db 1 wei s₁ ≡ ok t)
    × (subtract_from_balance db 1 wei t ≡ ok u)
    × (answer (get_balance db 1 t) ≡ ok ((held + wei) % 2 ^ 256))
    × ((b : Address) → answer (get_balance db b u) ≡ answer (get_balance db b s₁))
subtract_from_balance-add_to_balance_example =
    subtract_from_balance-add_to_balance db 1 wei held s₁ (omega arith) (omega arith) held_before

held_in_two : answer (get_balance db 1 s₂) ≡ ok held
unfolding or_new set_balance change_balance touch get_or_create_object ensure_object get_object
    exists set_storage get_current_storage get_storage get_balance
held_in_two = refl

-- Account 1 has a nonce, code and a written slot before.
create_contract_lem_example :
    (t : IntraBlockState) × (create_contract db 1 s₂ ≡ ok t) × IsNew db 1 held t
create_contract_lem_example = create_contract_lem db 1 held s₂ held_in_two

abbrev killed : IntraBlockState
killed = or_new (destruct_selfdestructs db (2 ∷ 1 ∷ []) s₂)

all_killed : destruct_selfdestructs db (2 ∷ 1 ∷ []) s₂ ≡ ok killed
unfolding or_new set_balance change_balance touch get_or_create_object ensure_object get_object
    exists set_storage get_current_storage get_storage destruct_selfdestructs destruct
all_killed = refl

destruct_selfdestructs_lem_example :
    Destroyed db killed (2 ∷ 1 ∷ [])
    × ((b : Address)
        → IsAbsent b (2 ∷ 1 ∷ [])
        → answer (exists db b killed) ≡ answer (exists db b s₂))
destruct_selfdestructs_lem_example = destruct_selfdestructs_lem db (2 ∷ 1 ∷ []) s₂ killed all_killed

abbrev slot_key : ℕ
slot_key = 8

finalize_transaction_lem_example :
    (answer (get_original_storage db 1 slot_key (finalize_transaction s₂))
      ≡ answer (get_current_storage db 1 slot_key s₂))
    × (answer (get_current_storage db 1 slot_key (finalize_transaction s₂))
        ≡ answer (get_current_storage db 1 slot_key s₂))
    × (answer (get_object db 1 (finalize_transaction s₂)) ≡ answer (get_object db 1 s₂))
finalize_transaction_lem_example = finalize_transaction_lem db s₂ 1 slot_key
