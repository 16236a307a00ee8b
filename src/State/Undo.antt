-- ===== src/State/Undo.antt =====
-- What it takes to undo a step of the block state by its journal entries.
pub mod Objects
pub mod Ensure
pub mod Touch
pub mod Accounts
pub mod Create
pub mod Access
pub mod Slots
pub mod Writes
use martinez.Base.{
  ℕ, suc, ◌+◌, zero, ◌≡◌, refl, sym, ◌∙◌, ap, List, [], ◌∷◌, ◌++◌, arith, length, length-append,
  Result, ok, err, >>=-eq-ok, ◌>>=◌,
}
use Prim.Native.Nat.add
use mathlib.Core.List.{append_assoc, append-nil}
use martinez.State.Types.{Address, Log, Delta, Db, IntraBlockState}
use martinez.State.Journal.{revert, pop_revert, revert_loop}
use martinez.State.Extends.{Extends, IsCounted, Extends-others, Extends-trans}

-- A state that a revert has reached: it extends `s`, and left the rest of the journal and the logs.
pub record Undone (db : Db) (s x : IntraBlockState) (rest : List Delta) (n : ℕ) : Type 0 where
  pub result : IntraBlockState
  pub returns : revert_loop n x ≡ ok result
  pub extends : Extends db s result
  pub journal : result.journal ≡ rest
  pub logs : result.logs ≡ x.logs

-- `t` comes from `s` by a step whose journal entries undo it, in every state that extends `t`.
pub record Undoes (db : Db) (s t : IntraBlockState) : Type 0 where
  pub pushed : List Delta
  pub logged : List Log
  pub journal : t.journal ≡ pushed ++ s.journal
  pub logs : t.logs ≡ s.logs ++ logged
  pub counted : IsCounted s → IsCounted t
  pub undo :
      IsCounted s
      → (x : IntraBlockState) (rest : List Delta) → Extends db t x
      → x.journal ≡ pushed ++ rest
      → Undone db s x rest (length pushed)

-- The journal plays no part in `Extends`.
pub Extends-journal :
    (db : Db) (s x : IntraBlockState) (j : List Delta)
    → Extends db s x
    → Extends db s (record x { journal = j })
Extends-journal db s x j e =
    Extends-others db s x _ _ _ _ _ _ _ _ s.journal j e e.self_destructs e.touched e.ripemd
      e.addresses e.keys

pub Extends-journal_left :
    (db : Db) (s x : IntraBlockState) (j : List Delta)
    → Extends db (record s { journal = j }) x
    → Extends db s x
Extends-journal_left db s x j e =
    Extends-others db (record s { journal = j }) x _ _ _ _ _ _ _ _ s.journal x.journal e
      e.self_destructs e.touched e.ripemd e.addresses e.keys

bind_loop :
    (m n : ℕ)
    → ((y : IntraBlockState) → revert_loop (m + n) y ≡ (revert_loop m y >>= revert_loop n))
    → (r : Result IntraBlockState)
    → (r >>= revert_loop (m + n)) ≡ ((r >>= revert_loop m) >>= revert_loop n)
bind_loop m n ih (ok y) = ih y
bind_loop m n ih (err e) = refl

revert_loop-add :
    (m n : ℕ) (x : IntraBlockState) → revert_loop (m + n) x ≡ (revert_loop m x >>= revert_loop n)
unfolding revert_loop
revert_loop-add zero n x = rw add.zero
revert_loop-add (suc m) n x = rw add.suc (bind_loop m n (revert_loop-add m n) (pop_revert x))

pop_revert-cons :
    (x : IntraBlockState) (d : Delta) (rest : List Delta)
    → x.journal ≡ d ∷ rest
    → pop_revert x ≡ revert d (record x { journal = rest })
unfolding pop_revert
pop_revert-cons x d rest p = cc

-- A step that only caches reads has nothing to undo.
pub Undoes-cached :
    (db : Db) (s t : IntraBlockState)
    → Extends db s t
    → t.journal ≡ s.journal
    → t.logs ≡ s.logs
    → Undoes db s t
unfolding revert_loop
Undoes-cached db s t h j l = record {
  pushed = [];
  logged = [];
  journal = j;
  logs = l ∙ sym (append-nil _);
  counted = λ c a z. c a (sym (h.incarnations a) ∙ z);
  undo = λ c x rest e p. record {
    result = x;
    returns = refl;
    extends = Extends-trans db s t x h e;
    journal = p;
    logs = refl;
  };
}

-- One journal entry, whose revert leaves the journal and the logs alone.
pub Undoes-one :
    (db : Db) (s t : IntraBlockState) (d : Delta)
    → t.journal ≡ d ∷ s.journal
    → t.logs ≡ s.logs
    → ((a : Address) → t.incarnations a ≡ s.incarnations a)
    → ((x : IntraBlockState)
        → Extends db t x
        → (y : IntraBlockState) × (revert d x ≡ ok y)
          × Extends db s y
          × (y.journal ≡ x.journal)
          × (y.logs ≡ x.logs))
    → Undoes db s t
unfolding revert_loop
Undoes-one db s t d j l i undo = record {
  pushed = d ∷ [];
  logged = [];
  journal = j;
  logs = l ∙ sym (append-nil _);
  counted = λ c a z. c a (sym (i a) ∙ z);
  undo = λ c x rest e p.
      let (y, r, e', j', l') = undo (record x { journal = rest }) (Extends-journal db t x rest e) in
      record {
        result = y;
        returns = rw (pop_revert-cons x d rest p, r);
        extends = e';
        journal = j';
        logs = l';
      };
}

Undone-trans :
    (db : Db) (s t x : IntraBlockState) (p : List Delta) (rest : List Delta) (m n : ℕ)
    → (u : Undone db t x (p ++ rest) m)
    → ((y : IntraBlockState) → Extends db t y → y.journal ≡ p ++ rest → Undone db s y rest n)
    → Undone db s x rest (m + n)
Undone-trans db s t x p rest m n u next =
    let v = next u.result u.extends u.journal in
    record {
      result = v.result;
      returns = rw (revert_loop-add, u.returns) v.returns;
      extends = v.extends;
      journal = v.journal;
      logs = v.logs ∙ u.logs;
    }

-- Steps in a row are undone last step first.
pub Undoes-trans :
    (db : Db) (s t u : IntraBlockState) → Undoes db s t → Undoes db t u → Undoes db s u
Undoes-trans db s t u a b = record {
  pushed = b.pushed ++ a.pushed;
  logged = a.logged ++ b.logged;
  journal = b.journal ∙ rw (a.journal, append_assoc);
  logs = b.logs ∙ rw (a.logs, append_assoc);
  counted = λ c. b.counted (a.counted c);
  undo = λ c x rest e p. rw length-append (
      Undone-trans db s t x a.pushed rest _ _
        (b.undo (a.counted c) x (a.pushed ++ rest) e (rw append_assoc at p))
        (λ y e' p'. a.undo c y rest e' p'));
}

-- Two entries that are undone together.
pub Undoes-two :
    (db : Db) (s t : IntraBlockState) (d d' : Delta)
    → t.journal ≡ d ∷ d' ∷ s.journal
    → t.logs ≡ s.logs
    → (IsCounted s → IsCounted t)
    → (IsCounted s
        → (x : IntraBlockState) → Extends db t x
        → (y : IntraBlockState) × (revert d x ≡ ok y)
          × (y.journal ≡ x.journal)
          × ((j : List Delta)
              → (z : IntraBlockState) × (revert d' (record y { journal = j }) ≡ ok z)
                × Extends db s z
                × (z.journal ≡ j)
                × (z.logs ≡ x.logs)))
    → Undoes db s t
unfolding revert_loop
Undoes-two db s t d d' j l count undo = record {
  pushed = d ∷ d' ∷ [];
  logged = [];
  journal = j;
  logs = l ∙ sym (append-nil _);
  counted = count;
  undo = λ c x rest e p.
      let (y, r, j₁, next) =
        undo c (record x { journal = d' ∷ rest }) (Extends-journal db t x (d' ∷ rest) e) in
      let (z, r', e', j₂, l') = next rest in
      record {
        result = z;
        returns = rw (pop_revert-cons x d (d' ∷ rest) p, r, pop_revert-cons y d' rest j₁, r');
        extends = e';
        journal = j₂;
        logs = l';
      };
}
