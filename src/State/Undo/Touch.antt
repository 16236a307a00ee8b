-- ===== src/State/Undo/Touch.antt =====
-- Undoing `get_or_create_object` and `touch`.
use martinez.Base.{
  true, false, some, ◌≡◌, refl, sym, ap, subst, ◌∙◌, inl, inr, ◌∷◌, ◌==◌, ==-self, ==_iff, at_key,
  ok, update, unwrap, >>=-eq-ok, Bool-cases, ok_parts, unwrap-ok,
}
use martinez.State.Types.{Address, Object, touch_delta, Db, IntraBlockState}
use martinez.State.Objects.{get_or_create_object, ensure_object}
use martinez.State.Accounts.{touch, ripemd_address}
use martinez.State.Journal.{revert}
use martinez.State.Extends.{Extends-refl, Extends-others}
use martinez.State.Undo.{Undoes, Undoes-cached, Undoes-one}
use martinez.State.Undo.Ensure.{ensure_object-Ensured}

-- `get_or_create_object` can be undone, and hands out the object that is then in place.
pub get_or_create_object-Undoes :
    (db : Db) (a : Address) (s t : IntraBlockState) (o : Object)
    → get_or_create_object db a s ≡ ok (o, t)
    → Undoes db s t × (t.objects a ≡ some o)
unfolding get_or_create_object
get_or_create_object-Undoes db a s t o h =
    let (s', made, e) = >>=-eq-ok (ensure_object db a s) _ h in
    let (o', there, e') = >>=-eq-ok (unwrap (s'.objects a)) _ e in
    let (same, same') = ok_parts e' in
    (
      (ensure_object-Ensured db a s t (made ∙ ap ok same')).undoes,
      sym (ap (λ (u : IntraBlockState). u.objects a) same') ∙ unwrap-ok _ there ∙ ap some same,
    )

-- The touch of an address that is not touched is undone by its entry.
touch_undone :
    (db : Db) (a : Address) (s : IntraBlockState)
    → s.touched a ≡ false
    → (a == ripemd_address) ≡ false
    → Undoes db s
        (record s { touched = update s.touched a true; journal = touch_delta a ∷ s.journal })
unfolding revert
touch_undone db a s fresh ne =
    Undoes-one db s _ (touch_delta a) refl refl (λ b. refl)
      λ x e. (
        record x { touched = update x.touched a false },
        refl,
        Extends-others db _ x _ _ s.touched (update x.touched a false) _ _ _ _ s.journal x.journal e
            e.self_destructs
            (at_key _ a (λ _. rw (==-self, fresh))
              (λ b other n. rw other (rw other at (e.touched b n))))
            (λ h. rw ne (e.ripemd (rw ne h))) e.addresses e.keys,
        refl,
        refl,
      )

-- The touch of RIPEMD-160 leaves no entry, and lasts.
touch_lasts :
    (db : Db) (s : IntraBlockState)
    → Undoes db s (record s { touched = update s.touched ripemd_address true })
touch_lasts db s =
    Undoes-cached db s _
      (Extends-others db s s _ _ s.touched (update s.touched ripemd_address true) _ _ _ _ _ _
        (Extends-refl db s) (λ b. refl)
        (at_key _ ripemd_address (λ n. absurd (n refl)) (λ b other n. rw other)) (λ h. refl)
        (λ b. refl) (λ b key. refl))
      refl refl

touch_again :
    (db : Db) (a : Address) (s : IntraBlockState)
    → s.touched a ≡ true
    → Undoes db s (record s { touched = update s.touched a true })
touch_again db a s old =
    Undoes-cached db s _
      (Extends-others db s s _ _ s.touched (update s.touched a true) _ _ _ _ _ _ (Extends-refl db s)
        (λ b. refl) (λ b n. same b) (λ h. same ripemd_address ∙ h) (λ b. refl) (λ b key. refl))
      refl refl
  where
    same : (b : Address) → update s.touched a true b ≡ s.touched b
    same = at_key _ a (rw (==-self, old)) (λ b other. rw other)

pub touch-Undoes : (db : Db) (a : Address) (s : IntraBlockState) → Undoes db s (touch a s)
unfolding touch
touch-Undoes db a s = elim (Bool-cases (s.touched a)) [
  | inl old ↦ rw old (touch_again db a s old)
  | inr fresh ↦ elim (Bool-cases (a == ripemd_address)) [
    | inl ripemd ↦
        rw (fresh, ripemd)
          (subst (λ b. Undoes db s (record s { touched = update s.touched b true }))
            (sym ((==_iff a ripemd_address).0 ripemd)) (touch_lasts db s))
    | inr other ↦ rw (fresh, other) (touch_undone db a s fresh other)
  ]
]
