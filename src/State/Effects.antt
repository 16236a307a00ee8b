-- ===== src/State/Effects.antt =====
-- What the operations of the block state do, read through its getters.
use martinez.Base.{
  ℕ, Bool, true, false, Option, none, some, ◌≡◌, refl, sym, ap₂, ◌∙◌, inl, inr, if◌then◌else◌,
  Result, ok, ◌>>=◌, Option-cases,
}
use martinez.State.Types.{Address, Object, CommittedValue, Db, IntraBlockState}
use martinez.State.Objects.{get_object}
use martinez.State.Accounts.{object_exists}
use martinez.State.Slots.{
  cached, finalize_value, finalize_transaction, get_current_storage, get_original_storage,
  get_storage,
}
use martinez.State.Extends.{slot}
use martinez.State.Answers.{answer, answer-get_object, answer-get_storage}

cached-finalize :
    (current : Option ℕ) (committed : Option CommittedValue) (b : Bool)
    → cached b none (finalize_value current committed) ≡ cached false current committed
cached-finalize none none true = refl
cached-finalize none none false = refl
cached-finalize none (some c) true = refl
cached-finalize none (some c) false = refl
cached-finalize (some v) none true = refl
cached-finalize (some v) none false = refl
cached-finalize (some v) (some c) true = refl
cached-finalize (some v) (some c) false = refl

slot-finalize :
    (db : Db) (s : IntraBlockState) (a : Address) (key : ℕ) (b : Bool)
    → slot db (finalize_transaction s) a key b ≡ slot db s a key false
unfolding slot finalize_transaction
slot-finalize db s a key b = elim (Option-cases (s.storage a)) [
  | inl vacant ↦ rw (vacant, none_read b)
  | inr (st, there) ↦ rw (there, cached-finalize (st.current key) (st.committed key) b)
]
  where
    none_read : (c : Bool) → cached c none none ≡ cached false none none
    none_read true = refl
    none_read false = refl

answer-get_object_finalize :
    (db : Db) (s : IntraBlockState) (a : Address)
    → answer (get_object db a (finalize_transaction s)) ≡ answer (get_object db a s)
unfolding finalize_transaction
answer-get_object_finalize db s a = answer-get_object db a _ ∙ sym (answer-get_object db a s)

-- At the end of a transaction the current value of every storage slot becomes its original one,
-- and stays the current one; no account's existence, balance, nonce or code hash changes.
pub finalize_transaction_lem :
    (db : Db) (s : IntraBlockState) (a : Address) (key : ℕ)
    → (answer (get_original_storage db a key (finalize_transaction s))
        ≡ answer (get_current_storage db a key s))
      × (answer (get_current_storage db a key (finalize_transaction s))
          ≡ answer (get_current_storage db a key s))
      × (answer (get_object db a (finalize_transaction s)) ≡ answer (get_object db a s))
unfolding get_original_storage get_current_storage
finalize_transaction_lem db s a key =
    (committed true, committed false, answer-get_object_finalize db s a)
  where
    committed :
        (b : Bool)
        → answer (get_storage db a key b (finalize_transaction s))
          ≡ answer (get_storage db a key false s)
    committed b =
        answer-get_storage db a key b _
        ∙ ap₂
            (λ (r : Result (Option Object)) (v : Result ℕ).
              r >>= λ o. if object_exists o then v else ok 0)
            (answer-get_object_finalize db s a) (slot-finalize db s a key b)
        ∙ sym (answer-get_storage db a key false s)
