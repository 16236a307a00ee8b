-- ===== src/Evm/Reached.antt =====
-- The jump destinations and the padded code that the analysis in src/execution/evm/interpreter.rs
-- gives, against the instructions that are reached one after the other.
use martinez.Base.{
  ℕ, zero, suc, ◌+◌, ◌-◌, ◌≤◌, ◌<◌, true, false, ◌&&◌, List, [], ◌∷◌, ◌≡◌, refl, sym, subst, ltb,
  leb, ltb→lt, lt→ltb, arith, length, Set, no_element, inl, inr, ◌↔◌, ◌⊎◌, Bool-cases, resize,
  length-resize,
}
use martinez.Evm.Tables.{and_true}
use martinez.Evm.OpCodes.{op_jumpdest, op_stop}
use martinez.Evm.Jumps.{width, byte_at, mark, analyze_loop, analyze, contains}

-- The Yellow Paper's instructions: 0x60 to 0x7f are PUSH1 to PUSH32, with as many bytes of data
-- as their names say, and no other has data.
abbrev pub HasData : ℕ → ℕ → Type 0
HasData byte n =
    ((0x60 ≤ byte) × (byte ≤ 0x7f) × (byte ≡ 0x5f + n))
    ⊎ (((byte < 0x60) ⊎ (0x7f < byte)) × (n ≡ 0))

-- From the instruction at `i` the one at `d` is reached, one instruction after the other.
pub data Reach (code : List ℕ) : ℕ → ℕ → Type 0 where
  here : {i : ℕ} → Reach code i i
  next :
      {i d n : ℕ}
      → i < length code
      → HasData (byte_at code i) n
      → Reach code (i + 1 + n) d
      → Reach code i d

width-HasData : (opcode n : ℕ) → HasData opcode n → width opcode ≡ 1 + n
unfolding width
width-HasData opcode n h = ground arith

HasData-width : (opcode : ℕ) → (n : ℕ) × HasData opcode n
HasData-width opcode = elim (Bool-cases (leb 0x60 opcode && leb opcode 0x7f)) [
  | inl push ↦ (opcode - 0x5f, ground arith)
  | inr plain ↦ (0, ground arith)
]

-- The rest of the way is the code's: past the data.
on :
    (code : List ℕ) (i n : ℕ) {d : ℕ}
    → HasData (byte_at code i) n
    → Reach code (i + 1 + n) d
    → Reach code (i + width (byte_at code i)) d
on code i n {d} h r =
    let e = width-HasData (byte_at code i) n h in subst (λ k. Reach code k d) (omega (arith, e)) r

step :
    (code : List ℕ) (i : ℕ) {d : ℕ}
    → i < length code
    → Reach code (i + width (byte_at code i)) d
    → Reach code i d
step code i {d} lt r =
    let (n, h) = HasData-width (byte_at code i) in
    let e = width-HasData (byte_at code i) n h in
    next lt h (subst (λ k. Reach code k d) (omega (arith, e)) r)

Reach-next :
    {code : List ℕ} {i d : ℕ}
    → Reach code i d
    → d < length code
    → Reach code i (d + width (byte_at code d))
Reach-next {code} {i} {d} here h = step code d h here
Reach-next (next lt has r) h = next lt has (Reach-next r h)

width_pos : (opcode : ℕ) → 1 ≤ width opcode
unfolding width
width_pos opcode = ground arith

beyond :
    (n : ℕ) (code : List ℕ) (i : ℕ) (map : Set)
    → length code ≤ i
    → analyze_loop n code i map ≡ (i, map)
unfolding analyze_loop
beyond zero code i map h = refl
beyond (suc n) code i map h =
    let out : ltb i (length code) ≡ false = ground arith in rw (analyze_loop, out)

-- What the loop's result has, begun at `i` with the given map.
record Analyzed (code : List ℕ) (i : ℕ) (map : Set) (out : ℕ × Set) : Type 0 where
  ends : length code ≤ out.0
  reached : (d : ℕ) → Reach code i d → d ≤ out.0
  marked :
      (d : ℕ)
      → out.1 d ≡ true
      → (map d ≡ true) ⊎ (Reach code i d × (d < length code) × (byte_at code d ≡ op_jumpdest))
  kept : (d : ℕ) → map d ≡ true → out.1 d ≡ true
  all_marked :
      (d : ℕ) → Reach code i d → d < length code → byte_at code d ≡ op_jumpdest → out.1 d ≡ true

stop_here : (code : List ℕ) (i : ℕ) (map : Set) → length code ≤ i → Analyzed code i map (i, map)
stop_here code i map h = record {
  ends = h;
  reached = stays;
  marked = λ d e. inl e;
  kept = λ d e. e;
  all_marked = λ d r small e. none_left d r small;
}
  where
    stays : (d : ℕ) → Reach code i d → d ≤ i
    stays d here = omega arith
    stays d (next lt has r) = absurd (omega arith)

    none_left : (d : ℕ) → Reach code i d → d < length code → map d ≡ true
    none_left d here lt = absurd (omega arith)
    none_left d (next lt' has r) lt = absurd (omega arith)

mark-other :
    (opcode i : ℕ) (map : Set) (d : ℕ)
    → mark opcode i map d ≡ true
    → (map d ≡ true) ⊎ ((i ≡ d) × (opcode ≡ op_jumpdest))
mark-other opcode i map d h = ground arith

mark-kept : (opcode i : ℕ) (map : Set) (d : ℕ) → map d ≡ true → mark opcode i map d ≡ true
mark-kept opcode i map d h = ground arith

mark_self : (opcode i : ℕ) (map : Set) → opcode ≡ op_jumpdest → mark opcode i map i ≡ true
mark_self opcode i map h = ground arith

-- One round of the loop.
round :
    (code : List ℕ) (i : ℕ) (map : Set) (out : ℕ × Set)
    → i < length code
    → Analyzed code (i + width (byte_at code i)) (mark (byte_at code i) i map) out
    → Analyzed code i map out
round code i map out h rest = record {
  ends = rest.ends;
  reached = reached_from;
  marked = λ d e. elim (rest.marked d e) [
    | inl before ↦ elim (mark-other (byte_at code i) i map d before) [
      | inl old ↦ inl old
      | inr (same, dest) ↦ inr (
          subst (λ k. Reach code i k × (k < length code) × (byte_at code k ≡ op_jumpdest)) same
            (here, h, dest))
    ]
    | inr (r, small, dest) ↦ inr (step code i h r, small, dest)
  ];
  kept = λ d e. rest.kept d (mark-kept (byte_at code i) i map d e);
  all_marked = marked_from;
}
  where
    reached_from : (d : ℕ) → Reach code i d → d ≤ out.0
    reached_from d here = (let e = rest.ends in omega arith)
    reached_from d (next {n} lt has r) = rest.reached d (on code i n has r)

    marked_from :
        (d : ℕ) → Reach code i d → d < length code → byte_at code d ≡ op_jumpdest → out.1 d ≡ true
    marked_from d here small dest = rest.kept d (mark_self (byte_at code d) d map dest)
    marked_from d (next {n} lt has r) small dest = rest.all_marked d (on code i n has r) small dest

analyze_loop-Analyzed :
    (n : ℕ) (code : List ℕ) (i : ℕ) (map : Set)
    → length code ≤ n + i
    → Analyzed code i map (analyze_loop n code i map)
unfolding analyze_loop
analyze_loop-Analyzed zero code i map h = stop_here code i map (omega arith)
analyze_loop-Analyzed (suc n) code i map h = elim (Bool-cases (ltb i (length code))) [
  | inr out ↦
      subst (Analyzed code i map) (sym (beyond (suc n) code i map (ground arith)))
        (stop_here code i map (ground arith))
  | inl inside ↦
      let step = width_pos (byte_at code i) in
      let rest =
        analyze_loop-Analyzed n code (i + width (byte_at code i)) (mark (byte_at code i) i map)
          (omega arith) in
      rw (analyze_loop, inside) (round code i map _ (ltb→lt _ _ inside) rest)
]

-- Whatever the code: a jump destination is accepted exactly if it is a JUMPDEST at which an
-- instruction starts, that is, not one within the data of a PUSH.
pub contains-Reach :
    (code : List ℕ) (dst : ℕ)
    → (contains (analyze code).jumpdest_map dst ≡ true)
      ↔ (Reach code 0 dst × (dst < length code) × (byte_at code dst ≡ op_jumpdest))
unfolding contains analyze
contains-Reach code dst =
    let a = analyze_loop-Analyzed (length code) code 0 no_element (omega arith) in
    (
      λ h.
          let (inside, marked) = and_true (ltb dst (length code)) _ h in
          elim (a.marked dst marked) [ inl none_yet ↦ absurd (cc) | inr reached ↦ reached ],
      λ (r, inside, dest).
          let small = lt→ltb dst (length code) inside in
          let marked = a.all_marked dst r inside dest in rw (small, marked),
    )

byte_at-resize :
    (n : ℕ) (code : List ℕ) (i : ℕ) → i < n → byte_at (resize n op_stop code) i ≡ byte_at code i
byte_at-resize zero code i h = absurd (omega arith)
byte_at-resize (suc n) [] zero h = refl
byte_at-resize (suc n) [] (suc i) h = byte_at-resize n [] i (omega arith)
byte_at-resize (suc n) (b ∷ rest) zero h = refl
byte_at-resize (suc n) (b ∷ rest) (suc i) h = byte_at-resize n rest i (omega arith)

-- Whatever the code: where an instruction starts, the padded code can be read and has the byte of
-- the code, or STOP past its end; and if the start is within the code, the instruction's data and
-- the next instruction are within the padded code as well.
pub padded_code-Reach :
    (code : List ℕ) (pc : ℕ)
    → Reach code 0 pc
    → (pc < length (analyze code).padded_code)
      × (byte_at (analyze code).padded_code pc ≡ byte_at code pc)
      × ((n : ℕ)
          → pc < length code
          → HasData (byte_at code pc) n
          → pc + n + 1 < length (analyze code).padded_code)
unfolding analyze
padded_code-Reach code pc r =
    let a = analyze_loop-Analyzed (length code) code 0 no_element (omega arith) in
    let size = length-resize ((analyze_loop (length code) code 0 no_element).0 + 1) op_stop code in
    let le = a.reached pc r in
    (
      omega arith,
      byte_at-resize _ code pc (omega arith),
      λ n inside has.
          let next_le = a.reached _ (Reach-next r inside) in
          let e = width-HasData (byte_at code pc) n has in omega arith,
    )
