-- ===== src/State/Revert.antt =====
-- Reverting to a snapshot restores the block state, whatever was run since the snapshot.
use martinez.Base.{
  ◌+◌, ◌-◌, ◌%◌, ◌^◌, true, false, Option, ◌≡◌, refl, sym, ap, subst, ◌∙◌, [], ◌∷◌, arith, ltb,
  length, length-append, take, take-append, ok, ◌>>=◌, >>=-eq-ok, ok_parts, ok-injective,
}
use mathlib.Core.List.{append-nil}
use martinez.State.Types.{Address, Object, Db, IntraBlockState}
use martinez.State.Objects.{get_object}
use martinez.State.Accounts.{
  exists, is_dead, get_balance, get_nonce, get_code_hash, set_balance, add_to_balance,
  subtract_from_balance, set_nonce,
}
use martinez.State.Access.{add_log, add_refund, subtract_refund}
use martinez.State.Slots.{get_current_storage, get_original_storage}
use martinez.State.Journal.{take_snapshot, revert_to_snapshot}
use martinez.State.Extends.{Extends, IsCounted, Extends-refl}
use martinez.State.Undo.{Undoes, Undoes-cached, Undoes-trans}
use martinez.State.Undo.Objects.{get_object-Found, Found-Undoes}
use martinez.State.Undo.Touch.{touch-Undoes}
use martinez.State.Undo.Accounts.{
  change_balance-Undoes, change_account-Undoes, set_code-Undoes, get_code-Undoes,
  record_selfdestruct-Undoes,
}
use martinez.State.Undo.Create.{create_contract-Undoes}
use martinez.State.Undo.Access.{
  access_account-Undoes, access_storage-Undoes, Undoes-logs, Extends-logs_right,
}
use martinez.State.Undo.Slots.{get_storage-Undoes}
use martinez.State.Undo.Writes.{set_storage-Undoes}
use martinez.State.Runs.{Step, Run, start, step, rolled_back}

-- `x` is `s` again: the same journal, logs and refund, and all else but cached reads.
pub record Restored (db : Db) (s x : IntraBlockState) : Type 0 where
  pub extends : Extends db s x
  pub journal : x.journal ≡ s.journal
  pub logs : x.logs ≡ s.logs
  pub refund : x.refund ≡ s.refund

revert-Undoes :
    (db : Db) (s t : IntraBlockState)
    → IsCounted s
    → Undoes db s t
    → (x : IntraBlockState) × (revert_to_snapshot (take_snapshot s) t ≡ ok x) × Restored db s x
unfolding revert_to_snapshot take_snapshot
revert-Undoes db s t c u =
    let w = u.undo c t s.journal (Extends-refl db t) u.journal in
    let y = w.result in
    let n : length t.journal ≡ length u.pushed + length s.journal =
      ap length u.journal ∙ length-append u.pushed s.journal in
    let long : ltb (length t.journal) (length s.journal) ≡ false = ground (arith, n) in
    let rounds : length t.journal - length s.journal ≡ length u.pushed = omega (arith, n) in
    let logs : take (length s.logs) y.logs ≡ s.logs =
      ap (take (length s.logs)) (w.logs ∙ u.logs) ∙ take-append s.logs u.logged in
    (
      record y { logs = take (length s.logs) y.logs; refund = s.refund },
      rw (long, rounds, w.returns),
      record {
        extends = Extends-logs_right db s y _ _ w.extends;
        journal = w.journal;
        logs = logs;
        refund = refl;
      },
    )

get_object-Undoes {ℓ} :
    {A : Type ℓ} (db : Db) (a : Address) (f : Option Object → A) (s t : IntraBlockState) (v : A)
    → ◌>>=◌ {B = A × IntraBlockState} (get_object db a s) (λ r. ok (f r.0, r.1)) ≡ ok (v, t)
    → Undoes db s t
get_object-Undoes db a f s t v h =
    let ((o, s'), found, e) = >>=-eq-ok (get_object db a s) _ h in
    subst (Undoes db s) (ok_parts e).1
      (Found-Undoes db a s s' o (get_object-Found db a s o s' found))

Step-Undoes : (db : Db) {s t : IntraBlockState} → Step db s t → Undoes db s t
unfolding exists is_dead get_balance get_nonce get_code_hash set_balance add_to_balance
    subtract_from_balance set_nonce add_log add_refund subtract_refund get_current_storage
    get_original_storage
Step-Undoes db (Step.exists a v h) = get_object-Undoes db a _ _ _ v h
Step-Undoes db (Step.is_dead a v h) = get_object-Undoes db a _ _ _ v h
Step-Undoes db (Step.get_balance a v h) = get_object-Undoes db a _ _ _ v h
Step-Undoes db (Step.get_nonce a v h) = get_object-Undoes db a _ _ _ v h
Step-Undoes db (Step.get_code_hash a v h) = get_object-Undoes db a _ _ _ v h
Step-Undoes db (Step.get_code a v h) = get_code-Undoes db a _ _ v h
Step-Undoes db (Step.create_contract a h) = create_contract-Undoes db a _ _ h
Step-Undoes db {s = s} (Step.record_selfdestruct a) = record_selfdestruct-Undoes db a s
Step-Undoes db (Step.set_balance a v h) = change_balance-Undoes db a _ _ _ h
Step-Undoes db (Step.add_to_balance a v h) = change_balance-Undoes db a _ _ _ h
Step-Undoes db (Step.subtract_from_balance a v h) = change_balance-Undoes db a _ _ _ h
Step-Undoes db {s = s} (Step.touch a) = touch-Undoes db a s
Step-Undoes db (Step.set_nonce a v h) = change_account-Undoes db a _ _ _ h
Step-Undoes db (Step.set_code a code h) = set_code-Undoes db a code _ _ h
Step-Undoes db {s = s} (Step.access_account a) = access_account-Undoes db a s
Step-Undoes db {s = s} (Step.access_storage a key) = access_storage-Undoes db a key s
Step-Undoes db (Step.get_current_storage a key v h) = get_storage-Undoes db a key false _ _ v h
Step-Undoes db (Step.get_original_storage a key v h) = get_storage-Undoes db a key true _ _ v h
Step-Undoes db (Step.set_storage u a key v alive h) = set_storage-Undoes db a key v _ _ u alive h
Step-Undoes db {s = s} (Step.add_log log) = Undoes-logs db s (log ∷ []) s.refund
Step-Undoes db {s = s} (Step.add_refund v) =
    rw append-nil at (Undoes-logs db s [] ((s.refund + v) % 2 ^ 64))
Step-Undoes db {s = s} (Step.subtract_refund v) =
    rw append-nil at (Undoes-logs db s [] ((s.refund + 2 ^ 64 - v) % 2 ^ 64))

Run-Undoes :
    (db : Db) {s t : IntraBlockState} → IsCounted s → Run db s t → Undoes db s t × IsCounted t
Run-Undoes db {s} c start = (Undoes-cached db s s (Extends-refl db s) refl refl, c)
Run-Undoes db {s} {t = u} c (step {t = t} r st) =
    let (before, c') = Run-Undoes db c r in
    let after = Step-Undoes db st in (Undoes-trans db s t u before after, after.counted c')
Run-Undoes db {s} {t = v} c (rolled_back {t = t} {u = u} r inner h) =
    let (before, c') = Run-Undoes db c r in
    let (inside, _) = Run-Undoes db c' inner in
    let (x, back, restored) = revert-Undoes db t u c' inside in
    let same : x ≡ v = ok-injective (sym back ∙ h) in
    let after : Undoes db t v =
      subst (Undoes db t) same
        (Undoes-cached db t x restored.extends restored.journal restored.logs) in
    (Undoes-trans db s t v before after, after.counted c')

-- Take a snapshot in a state whose recorded incarnations are not zero, then make any calls, inner
-- calls that are rolled back among them: the revert to the snapshot does not panic, and gives a
-- state with the same journal, logs and refund counter, the same accounts, storage values,
-- incarnations, self-destructs and access sets, and the same touched addresses but for RIPEMD-160.
pub revert-Restored :
    (db : Db) (s t : IntraBlockState)
    → IsCounted s
    → Run db s t
    → (x : IntraBlockState) × (revert_to_snapshot (take_snapshot s) t ≡ ok x) × Restored db s x
revert-Restored db s t c r = revert-Undoes db s t c (Run-Undoes db c r).0
