-- ===== src/Consensus/Canonical.antt =====
-- The engine of consensus/ethash/mod.rs computes the difficulty of the fork rules.
use Prim.Native.Nat.{max}
use martinez.Base.{
  ℕ, ◌+◌, ◌-◌, ◌*◌, ◌/◌, ◌^◌, ◌≤◌, ◌<◌, Bool, true, false, not, Option, none, some, List, ◌≡◌, refl,
  sym, ap, subst, ◌∙◌, inl, inr, ltb, ◌==◌, if◌then◌else◌, arith, Bool-cases,
}
use martinez.Consensus.Types.{BlockHeader, switch_is_active}
use martinez.Consensus.Difficulty.{
  formula, canonical_difficulty, get_delay_to, stepped, uncle_factor, formula_lem,
}
use martinez.Consensus.Bomb.{
  bomb_size, canonical_difficulty_lem, get_delay_to-IsDelay, IsDelay-unique,
}
use martinez.Consensus.Ommers.{empty_list_hash}
use martinez.Consensus.Blocks.{Ethash}
use martinez.Consensus.Rules.{
  HasFormula, by_byzantium, by_homestead, up, down, HasBomb, engine_difficulty, active, inactive,
  IsActive-or_not, factor, has_factor,
}

mul_le : (a d t : ℕ) → d ≤ t → a * d ≤ a * t
mul_le a d t h = grind arith

stepped_small : (d y z : ℕ) → d < 2 ^ 254 → y ≤ 2 → stepped d (d / 2048) y z < 2 ^ 255
stepped_small d y z small le = elim (Bool-cases (ltb y z)) [
  | inl lower ↦ rw lower (omega arith)
  | inr higher ↦ rw higher (omega (arith, mul_le (d / 2048) (y - z) 2 (omega arith)))
]

module _ (engine : Ethash) (header parent : BlockHeader) where
  abbrev computed : ℕ
  computed =
      formula header.timestamp parent.difficulty parent.timestamp
        (not (parent.ommers_hash == empty_list_hash))
        (switch_is_active engine.byzantium_formula header.number)
        (switch_is_active engine.homestead_formula header.number)

  HasFormula-small :
      (base : ℕ)
      → parent.difficulty < 2 ^ 254
      → HasFormula engine header parent base
      → base < 2 ^ 255
  HasFormula-small base small (by_byzantium {y} a has) =
      stepped_small parent.difficulty y _ small (ground arith)
  HasFormula-small base small (by_homestead b a) =
      stepped_small parent.difficulty 1 _ small (omega arith)
  HasFormula-small base small (up b h e) = omega arith
  HasFormula-small base small (down b h e) = omega arith

  module _ (number_small : header.number < 25700000) (later : parent.timestamp < header.timestamp)
      (timestamp_small : header.timestamp < 2 ^ 64)
      (difficulty_small : parent.difficulty < 2 ^ 254) where
    at_elapsed :
        (u b h : Bool)
        → formula header.timestamp parent.difficulty parent.timestamp u b h ≡ (
            if b
            then stepped parent.difficulty
                (parent.difficulty / 2048)
                (uncle_factor u)
                ((header.timestamp - parent.timestamp) / 9)
            else if h
            then stepped parent.difficulty
                (parent.difficulty / 2048)
                1
                ((header.timestamp - parent.timestamp) / 10)
            else if ltb (header.timestamp - parent.timestamp) 13
            then parent.difficulty + parent.difficulty / 2048
            else parent.difficulty - parent.difficulty / 2048)
    at_elapsed u b h =
        let e : header.timestamp - parent.timestamp + parent.timestamp ≡ header.timestamp =
          omega arith in
        ap (λ t. formula t parent.difficulty parent.timestamp u b h) (sym e)
        ∙ formula_lem (header.timestamp - parent.timestamp) parent.difficulty parent.timestamp u b h
            (omega arith) (omega arith)

    before_last : header.number < 2 ^ 64 - 1
    before_last = omega arith

    HasFormula-unique : (base : ℕ) → HasFormula engine header parent base → computed ≡ base
    HasFormula-unique base (by_byzantium {y} a has) =
        let rule = active engine.byzantium_formula header.number a in
        rw (rule, ← factor parent y has) (at_elapsed _ true _)
    HasFormula-unique base (by_homestead b a) =
        let old = inactive engine.byzantium_formula header.number before_last b in
        let rule = active engine.homestead_formula header.number a in
        rw (old, rule) (at_elapsed _ false true)
    HasFormula-unique base (up b h e) =
        let old = inactive engine.byzantium_formula header.number before_last b in
        let older = inactive engine.homestead_formula header.number before_last h in
        let soon : ltb (header.timestamp - parent.timestamp) 13 ≡ true = ground arith in
        rw (old, older)
          (rw soon at (at_elapsed (not (parent.ommers_hash == empty_list_hash)) false false))
    HasFormula-unique base (down b h e) =
        let old = inactive engine.byzantium_formula header.number before_last b in
        let older = inactive engine.homestead_formula header.number before_last h in
        let late : ltb (header.timestamp - parent.timestamp) 13 ≡ false = ground arith in
        rw (old, older)
          (rw late at (at_elapsed (not (parent.ommers_hash == empty_list_hash)) false false))

    HasFormula-total : (base : ℕ) × HasFormula engine header parent base
    HasFormula-total = elim (IsActive-or_not engine.byzantium_formula header.number) [
      | inl a ↦ (_, by_byzantium a (has_factor parent))
      | inr b ↦ elim (IsActive-or_not engine.homestead_formula header.number) [
        | inl a ↦ (_, by_homestead b a)
        | inr h ↦ elim (Bool-cases (ltb header.timestamp (parent.timestamp + 13))) [
          | inl soon ↦ (_, up b h (ground arith))
          | inr late ↦ (_, down b h (ground arith))
        ]
      ]
    ]

    with_bomb :
        (bombs : Option (List (ℕ × ℕ))) (base bomb : ℕ)
        → HasFormula engine header parent base
        → HasBomb bombs header.number bomb
        → canonical_difficulty header.number header.timestamp parent.difficulty parent.timestamp
            (not (parent.ommers_hash == empty_list_hash))
            (switch_is_active engine.byzantium_formula header.number)
            (switch_is_active engine.homestead_formula header.number)
            (elim bombs [ none ↦ none | some delays ↦ some (get_delay_to delays header.number) ])
          ≡ max (base + bomb) 131072
    with_bomb none base bomb f e =
        let same = HasFormula-unique base f in
        let small = HasFormula-small base difficulty_small f in
        let value =
          canonical_difficulty_lem header.number header.timestamp parent.difficulty parent.timestamp
            0 (not (parent.ommers_hash == empty_list_hash))
            (switch_is_active engine.byzantium_formula header.number)
            (switch_is_active engine.homestead_formula header.number) (omega arith)
            (subst (λ n. n < 2 ^ 255) (sym same) small) in
        let sum : computed ≡ base + bomb = omega (arith, same, e) in
        value.1 ∙ ap (λ n. max n 131072) sum
    with_bomb (some delays) base bomb f (delay, counts, e) =
        let same = HasFormula-unique base f in
        let small = HasFormula-small base difficulty_small f in
        let counted = IsDelay-unique delays header.number delay counts in
        let value =
          canonical_difficulty_lem header.number header.timestamp parent.difficulty parent.timestamp
            delay (not (parent.ommers_hash == empty_list_hash))
            (switch_is_active engine.byzantium_formula header.number)
            (switch_is_active engine.homestead_formula header.number) (omega arith)
            (subst (λ n. n < 2 ^ 255) (sym same) small) in
        rw (← counted, e)
          (value.0 ∙ ap (λ n. max (n + bomb_size ((header.number - delay) / 100000)) 131072) same)

    HasBomb-total : (bombs : Option (List (ℕ × ℕ))) → (bomb : ℕ) × HasBomb bombs header.number bomb
    HasBomb-total none = (0, refl)
    HasBomb-total (some delays) = (
      bomb_size ((header.number - get_delay_to delays header.number) / 100000),
      (get_delay_to delays header.number, get_delay_to-IsDelay delays header.number, refl),
    )

    -- The engine's difficulty is what the rules give.
    pub engine_difficulty_value :
        (base bomb : ℕ)
        → HasFormula engine header parent base
        → HasBomb engine.difficulty_bomb header.number bomb
        → engine_difficulty engine header parent ≡ max (base + bomb) 131072
    engine_difficulty_value base bomb = with_bomb engine.difficulty_bomb base bomb

    -- The rules give a difficulty.
    pub engine_difficulty_total :
        (base : ℕ) × (bomb : ℕ) × HasFormula engine header parent base
        × HasBomb engine.difficulty_bomb header.number bomb
    engine_difficulty_total =
        let (base, f) = HasFormula-total in
        let (bomb, b) = HasBomb-total engine.difficulty_bomb in (base, bomb, f, b)
