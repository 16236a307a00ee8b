-- ===== src/Evm/Parts.antt =====
-- Parts of the memory: the zeros after the bytes of a source, and two writes in a row.
use Prim.Native.Nat.{min}
use martinez.Base.{
  ℕ, zero, suc, ◌+◌, ◌-◌, ◌≤◌, ◌≡◌, refl, sym, ap, ap₂, ◌∙◌, ◌⊎◌, [], ◌∷◌, ◌++◌, false, ltb, length,
  take, resize, length-append, take-append, arith, inl, inr, Bool-cases,
}
use martinez.Evm.Stack.{returned, ◌>>=◌}
use martinez.Evm.Memory.{Bytes, drop, write}
use martinez.Evm.Copies.{zeros}
use martinez.Evm.Bytes.{length-take, length-drop}

pub length-zeros : (n : ℕ) → length (zeros n) ≡ n
length-zeros zero = refl
length-zeros (suc n) = ap suc (length-zeros n)

zeros-resize : (size : ℕ) → zeros size ≡ resize size 0 []
zeros-resize zero = refl
zeros-resize (suc n) = λ i. 0 ∷ zeros-resize n i

-- The bytes and the zeros after them are what a cut or an extension gives.
pub padded :
    (n size : ℕ) (xs : Bytes)
    → n ≤ length xs
    → n ≤ size
    → (n ≡ size) ⊎ (n ≡ length xs)
    → take n xs ++ zeros (size - n) ≡ resize size 0 xs
padded zero zero xs h k either = refl
padded zero (suc size) [] h k either =
    let all : suc size - 0 ≡ suc size = omega arith in ap zeros all ∙ zeros-resize (suc size)
padded zero (suc size) (x ∷ xs) h k either =
    absurd (elim either [ inl e ↦ omega (arith, e) | inr e ↦ omega (arith, e) ])
padded (suc n) size [] h k either = absurd (omega (arith, h))
padded (suc n) zero (x ∷ xs) h k either = absurd (omega (arith, k))
padded (suc n) (suc size) (x ∷ xs) h k either =
    let less : suc size - suc n ≡ size - n = omega arith in
    ap (λ z. x ∷ (take n xs ++ zeros z)) less
    ∙ ap (λ l. x ∷ l)
        (padded n size xs (omega arith) (omega arith)
          (elim either [ inl e ↦ inl (omega (arith, e)) | inr e ↦ inr (omega (arith, e)) ]))

take-over : (xs ys : Bytes) (k : ℕ) → take (length xs + k) (xs ++ ys) ≡ xs ++ take k ys
take-over [] ys k = ap (λ n. take n ys) (omega arith)
take-over (x ∷ xs) ys k =
    let next : suc (length xs) + k ≡ suc (length xs + k) = omega arith in
    ap (λ n. take n (x ∷ (xs ++ ys))) next ∙ ap (λ l. x ∷ l) (take-over xs ys k)

drop-over : (xs ys : Bytes) (k : ℕ) → drop (length xs + k) (xs ++ ys) ≡ drop k ys
drop-over [] ys k = ap (λ n. drop n ys) (omega arith)
drop-over (x ∷ xs) ys k =
    let next : suc (length xs) + k ≡ suc (length xs + k) = omega arith in
    ap (λ n. drop n (x ∷ (xs ++ ys))) next ∙ drop-over xs ys k

drop-nil : (n : ℕ) → drop n [] ≡ []
drop-nil zero = refl
drop-nil (suc n) = refl

drop-drop : (j k : ℕ) (xs : Bytes) → drop j (drop k xs) ≡ drop (k + j) xs
drop-drop j zero xs = ap (λ n. drop n xs) (omega arith)
drop-drop j (suc k) [] = drop-nil j ∙ sym (drop-nil (suc k + j))
drop-drop j (suc k) (x ∷ xs) =
    let next : suc k + j ≡ suc (k + j) = omega arith in
    drop-drop j k xs ∙ ap (λ n. drop n (x ∷ xs)) (sym next)

append_assoc : (xs ys zs : Bytes) → (xs ++ ys) ++ zs ≡ xs ++ (ys ++ zs)
append_assoc [] ys zs = refl
append_assoc (x ∷ xs) ys zs = ap (λ l. x ∷ l) (append_assoc xs ys zs)

drop-past : (n : ℕ) (xs : Bytes) → length xs ≤ n → drop n xs ≡ []
drop-past zero [] h = refl
drop-past zero (x ∷ xs) h = absurd (omega (arith, h))
drop-past (suc n) [] h = refl
drop-past (suc n) (x ∷ xs) h = drop-past n xs (omega arith)

pub least_is : (a b : ℕ) {c : ℕ} → c ≡ b → (min a b ≡ a) ⊎ (min a b ≡ c)
least_is a b e = elim (Bool-cases (ltb a b)) [
  | inl less ↦ inl (ground (arith, less))
  | inr other ↦ inr (ground (arith, other, e))
]

-- An index past the end finds nothing, as the end does.
pub same_rest :
    (from : ℕ) (source : Bytes) → drop (min (length source) from) source ≡ drop from source
same_rest from source = elim (Bool-cases (ltb from (length source))) [
  | inl inside ↦
      let is : min (length source) from ≡ from = ground (arith, inside) in
      ap (λ k. drop k source) is
  | inr past ↦
      let is : min (length source) from ≡ length source = ground (arith, past) in
      ap (λ k. drop k source) is
      ∙ drop-past (length source) source (omega arith)
      ∙ sym (drop-past from source (ground (arith, past)))
]

-- Two writes, one after the other in the memory, are one.
pub write-write :
    (m : Bytes) (at : ℕ) (a b : Bytes)
    → at + (length a + length b) ≤ length m
    → (write m at a >>= λ m₁. write m₁ (at + length a) b) ≡ write m at (a ++ b)
unfolding write
write-write m at a b h =
    let front = length-take at m (omega (arith, h)) in
    let both = length-append a b in
    let room₁ : ltb (length m) (at + length a) ≡ false = ground (arith, h) in
    let room : ltb (length m) (at + length (a ++ b)) ≡ false = ground (arith, h, both) in
    let m₁ : Bytes = take at m ++ (a ++ drop (at + length a) m) in
    let same : length m₁ ≡ length m =
      length-append (take at m) (a ++ drop (at + length a) m)
      ∙ omega (
        arith,
        h,
        front,
        length-append a (drop (at + length a) m),
        length-drop (at + length a) m,
      ) in
    let room₂ : ltb (length m₁) (at + length a + length b) ≡ false = ground (arith, h, same) in
    let past : at + length a + length b ≡ length (take at m) + (length a + length b) =
      omega (arith, front) in
    let end : at + length a + length b ≡ at + length (a ++ b) = omega (arith, both) in
    rw (room₁, room₂, room)
      (ap returned (
        ap₂ (λ l r. l ++ (b ++ r))
          (ap (λ k. take k m₁) (ap (λ k. k + length a) (sym front))
            ∙ take-over (take at m) (a ++ drop (at + length a) m) (length a)
            ∙ ap (λ l. take at m ++ l) (take-append a (drop (at + length a) m)))
          (ap (λ k. drop k m₁) past
            ∙ drop-over (take at m) (a ++ drop (at + length a) m) (length a + length b)
            ∙ drop-over a (drop (at + length a) m) (length b)
            ∙ drop-drop (length b) (at + length a) m
            ∙ ap (λ k. drop k m) end)
        ∙ append_assoc (take at m) a (b ++ drop (at + length (a ++ b)) m)
        ∙ ap (λ l. take at m ++ l) (sym (append_assoc a b (drop (at + length (a ++ b)) m)))))
