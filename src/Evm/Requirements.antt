-- ===== src/Evm/Requirements.antt =====
-- src/execution/evm/instructions/instruction_table.rs, and `check_requirements` of
-- src/execution/evm/interpreter.rs. The gas left is not negative before an instruction.
use martinez.Base.{
  ℕ, suc, ◌+◌, ◌-◌, ◌≤◌, Bool, true, false, Option, none, some, ◌≡◌, ◌≢◌, refl, sym, ap, ◌∙◌, ltb,
  leb, ◌==◌, ◌&&◌, if◌then◌else◌, arith, Result, ok, err, panic, inl, inr, Bool-cases, ==_iff,
}
use martinez.Consensus.Rewards.{
  Revision, frontier, homestead, tangerine, spurious, byzantium, constantinople, petersburg,
  istanbul, berlin, london, shanghai,
}
use martinez.Evm.Tables.{ℤ, pos, negsuc, find, all, all-find, and_true}
use martinez.Evm.Properties.{Properties, properties}
use martinez.Evm.GasCosts.{gas_costs}

abbrev pub stack_size : ℕ
stack_size = 1024

pub record InstructionTableEntry : Type 0 where
  pub gas_cost : ℕ
  pub stack_height_required : ℕ
  pub can_overflow_stack : Bool

abbrev is_positive : ℤ → Bool
is_positive (pos n) = ltb 0 n
is_positive (negsuc n) = false

-- `PROPERTIES[opcode].unwrap()`
abbrev entry_of : Option ℕ → Option Properties → Result (Option InstructionTableEntry)
entry_of none found = ok none
entry_of (some cost) none = err panic
entry_of (some cost) (some p) = ok (
    some (record {
      gas_cost = cost;
      stack_height_required = p.stack_height_required;
      can_overflow_stack = is_positive p.stack_height_change;
    }))

unfoldable pub instruction_table : Revision → ℕ → Result (Option InstructionTableEntry)
instruction_table revision opcode = entry_of (find (gas_costs revision) opcode) (properties opcode)

pub data StatusCode : Type 0 where
  success failure revert_status out_of_gas invalid_instruction undefined_instruction : StatusCode
  stack_overflow stack_underflow bad_jump_destination invalid_memory_access : StatusCode
  call_depth_exceeded static_mode_violation precompile_failure : StatusCode
  contract_validation_failure argument_out_of_range insufficient_balance : StatusCode
  internal_error : StatusCode

pub data Checked : Type 0 where
  passed : (gas_left : ℕ) → Checked
  stopped : StatusCode → Checked

-- `metrics` is the entry of the instruction.
unfoldable pub check_requirements : Option InstructionTableEntry → ℕ → ℕ → Checked
check_requirements none gas_left size = stopped undefined_instruction
check_requirements (some metrics) gas_left size =
    if ltb gas_left metrics.gas_cost
    then stopped out_of_gas
    else if size == stack_size
    then if metrics.can_overflow_stack
      then stopped stack_overflow
      else passed (gas_left - metrics.gas_cost)
    else if ltb size metrics.stack_height_required
    then stopped stack_underflow
    else passed (gas_left - metrics.gas_cost)

-- The height after the instruction stays within 0 and 1024, and what it needs is there.
abbrev pub Fits : ℕ → ℤ → Type 0
Fits size (pos n) = size + n ≤ stack_size
Fits size (negsuc n) = suc n ≤ size

abbrev sound_change : ℕ → ℤ → Bool
sound_change required (pos n) = leb n 1
sound_change required (negsuc n) = ltb n required

abbrev sound_properties : Option Properties → Bool
sound_properties none = false
sound_properties (some p) =
    leb p.stack_height_required stack_size
    && sound_change p.stack_height_required p.stack_height_change

abbrev sound_row : ℕ → ℕ → Bool
sound_row opcode cost = sound_properties (properties opcode)

all_sound : (revision : Revision) → all sound_row (gas_costs revision) ≡ true
unfolding gas_costs properties
all_sound frontier = refl
all_sound homestead = refl
all_sound tangerine = refl
all_sound spurious = refl
all_sound byzantium = refl
all_sound constantinople = refl
all_sound petersburg = refl
all_sound istanbul = refl
all_sound berlin = refl
all_sound london = refl
all_sound shanghai = refl

sound_of :
    (revision : Revision) (opcode cost : ℕ)
    → find (gas_costs revision) opcode ≡ some cost
    → sound_properties (properties opcode) ≡ true
sound_of revision opcode cost h =
    all-find sound_row (gas_costs revision) opcode cost (all_sound revision) h

entry_of_total :
    (cost : Option ℕ) (p : Option Properties)
    → ((c : ℕ) → cost ≡ some c → sound_properties p ≡ true)
    → (entry : Option InstructionTableEntry) × (entry_of cost p ≡ ok entry)
entry_of_total none p h = (none, refl)
entry_of_total (some cost) none h = absurd (let bad = h cost refl in cc)
entry_of_total (some cost) (some p) h = (_, refl)

-- Every instruction that has a gas cost in a revision has properties: the table of the revision is
-- built without a panic.
pub instruction_table_total :
    (revision : Revision) (opcode : ℕ)
    → (entry : Option InstructionTableEntry) × (instruction_table revision opcode ≡ ok entry)
unfolding instruction_table
instruction_table_total revision opcode =
    entry_of_total (find (gas_costs revision) opcode) (properties opcode)
      (λ cost h. sound_of revision opcode cost h)

-- What a passed check says of the entry.
abbrev Passed : InstructionTableEntry → ℕ → ℕ → ℕ → Type 0
Passed m gas_left size gas' =
    (gas_left ≡ gas' + m.gas_cost)
    × (size ≢ stack_size → m.stack_height_required ≤ size)
    × (size ≡ stack_size → m.can_overflow_stack ≡ false)

check_passed :
    (m : InstructionTableEntry) (gas_left size gas' : ℕ)
    → check_requirements (some m) gas_left size ≡ passed gas'
    → Passed m gas_left size gas'
unfolding check_requirements
check_passed m gas_left size gas' h = elim (Bool-cases (ltb gas_left m.gas_cost)) [
  | inl dear ↦ absurd (let bad = rw dear at h in cc)
  | inr cheap ↦ elim (Bool-cases (size == stack_size)) [
    | inl full ↦ elim (Bool-cases m.can_overflow_stack) [
      | inl grows ↦ absurd (let bad = rw (cheap, full, grows) at h in cc)
      | inr stays ↦
          let left : passed (gas_left - m.gas_cost) ≡ passed gas' = rw (cheap, full, stays) at h in
          let e : gas_left - m.gas_cost ≡ gas' = cc in
          (ground arith, λ ne. absurd (ne ((==_iff _ _).0 full)), λ same. stays)
    ]
    | inr room ↦ elim (Bool-cases (ltb size m.stack_height_required)) [
      | inl low ↦ absurd (let bad = rw (cheap, room, low) at h in cc)
      | inr high ↦
          let left : passed (gas_left - m.gas_cost) ≡ passed gas' = rw (cheap, room, high) at h in
          let e : gas_left - m.gas_cost ≡ gas' = cc in
          (ground arith, λ ne. ground arith, λ same. absurd (ground arith))
    ]
  ]
]

Fits-of :
    (size required : ℕ) (change : ℤ)
    → size ≤ stack_size
    → leb required stack_size ≡ true
    → sound_change required change ≡ true
    → (size ≢ stack_size → required ≤ size)
    → (size ≡ stack_size → is_positive change ≡ false)
    → (required ≤ size) × Fits size change
Fits-of size required (pos n) h le sound low full = elim (Bool-cases (size == stack_size)) [
  | inl top ↦
      let same : size ≡ stack_size = (==_iff _ _).0 top in
      let flat = full same in (ground arith, ground arith)
  | inr room ↦
      let ne : size ≢ stack_size = ground arith in let enough = low ne in (enough, ground arith)
]
Fits-of size required (negsuc n) h le sound low full = elim (Bool-cases (size == stack_size)) [
  | inl top ↦ let same : size ≡ stack_size = (==_iff _ _).0 top in (ground arith, ground arith)
  | inr room ↦
      let ne : size ≢ stack_size = ground arith in let enough = low ne in (enough, ground arith)
]

entry_of-some :
    (cost : Option ℕ) (p : Option Properties) (m : InstructionTableEntry)
    → entry_of cost p ≡ ok (some m)
    → (c : ℕ) × (q : Properties) × (cost ≡ some c)
      × (p ≡ some q)
      × (m.gas_cost ≡ c)
      × (m.stack_height_required ≡ q.stack_height_required)
      × (m.can_overflow_stack ≡ is_positive q.stack_height_change)
entry_of-some none p m h = absurd (cc)
entry_of-some (some c) none m h = absurd (cc)
entry_of-some (some c) (some q) m h = (c, q, refl, refl, cc, cc, cc)

-- What an instruction does to a stack of at most 1024 items once the check has passed.
pub record IsSafe (revision : Revision) (opcode gas_left size gas' : ℕ) : Type 0 where
  pub cost : ℕ
  pub costs : find (gas_costs revision) opcode ≡ some cost
  pub paid : gas_left ≡ gas' + cost
  pub effect : Properties
  pub has_effect : properties opcode ≡ some effect
  pub enough : effect.stack_height_required ≤ size
  pub fits : Fits size effect.stack_height_change

-- On a stack of at most 1024 items: an instruction that passes the check is defined in the revision
-- and has been paid for, the items that it needs are there, and its change of the height stays
-- within 0 and 1024, though at 1024 the check does not compare the needed height.
pub check_requirements-IsSafe :
    (revision : Revision) (opcode gas_left size gas' : ℕ) (entry : Option InstructionTableEntry)
    → size ≤ stack_size
    → instruction_table revision opcode ≡ ok entry
    → check_requirements entry gas_left size ≡ passed gas'
    → IsSafe revision opcode gas_left size gas'
unfolding instruction_table check_requirements
check_requirements-IsSafe revision opcode gas_left size gas' none h table checked = absurd (cc)
check_requirements-IsSafe revision opcode gas_left size gas' (some m) h table checked =
    let (cost, q, costs, has, paid, required, grows) =
      entry_of-some (find (gas_costs revision) opcode) (properties opcode) m table in
    let (left, low, full) = check_passed m gas_left size gas' checked in
    let sound : sound_properties (some q) ≡ true =
      rw has at (sound_of revision opcode cost costs) in
    let (small, change) = and_true (leb q.stack_height_required stack_size) _ sound in
    let (enough, fits) =
      Fits-of size q.stack_height_required q.stack_height_change h small change
        (λ ne. rw (← required) (low ne)) (λ same. sym grows ∙ full same) in
    record {
      cost = cost;
      costs = costs;
      paid = left ∙ ap (λ c. gas' + c) paid;
      effect = q;
      has_effect = has;
      enough = enough;
      fits = fits;
    }
