-- ===== src/Consensus/Mined.antt =====
-- What a header satisfies that the engine of consensus/ethash/mod.rs has accepted.
use Prim.Native.Nat.{max}
use martinez.Base.{◌+◌, ◌<◌, ◌^◌, ℕ, Bool, true, not, some, ◌≡◌, sym, ap, ◌∙◌, ◌==◌, ==_iff, ◌↔◌}
use martinez.Consensus.Types.{BlockHeader, ChainState, accept}
use martinez.Consensus.Headers.{
  validate_block_header, IsValidHeader, validate_block_header-IsValidHeader, fail_if_accept,
  not-false, future_then,
}
use martinez.Consensus.Rules.{HasFormula, HasBomb, engine_difficulty}
use martinez.Consensus.Canonical.{engine_difficulty_value, engine_difficulty_total}
use martinez.Consensus.Ommers.{get_parent_header, bind_inv}
use martinez.Consensus.Blocks.{Ethash, ok_or, validate}
use martinez.Consensus.Accepted.{ok_or_inv}

-- A mined header: its difficulty is that of the fork rules at its number, with the bomb.
pub record IsMined (engine : Ethash) (now : ℕ) (state : ChainState) (header : BlockHeader)
    (check : Bool) : Type 0 where
  pub parent : BlockHeader
  pub known : get_parent_header state header ≡ accept (some parent)
  pub valid : IsValidHeader engine.eip1559_block now header parent check
  pub base : ℕ
  pub bomb : ℕ
  pub steps : HasFormula engine header parent base
  pub explodes : HasBomb engine.difficulty_bomb header.number bomb
  pub difficulty : header.difficulty ≡ max (base + bomb) 131072

module _ (engine : Ethash) (now : ℕ) (state : ChainState) (header : BlockHeader) (check : Bool)
    (number_small : header.number < 25700000) (timestamp_small : header.timestamp < 2 ^ 64)
    (difficulty_small : (parent : BlockHeader)
      → get_parent_header state header ≡ accept (some parent)
      → parent.difficulty < 2 ^ 254) where
  validate_sound :
      validate engine now state header check ≡ accept tt → IsMined engine now state header check
  unfolding validate
  validate_sound h =
      let (found, read, h₁) = bind_inv (get_parent_header state header) _ h in
      let (parent, there, h₂) = bind_inv (ok_or _ found) _ h₁ in
      let (accepted, h₃) =
        future_then (validate_block_header engine.eip1559_block now header parent check) _ h₂ in
      let expected = engine_difficulty engine header parent in
      let known = read ∙ ap accept (ok_or_inv _ found there) in
      let valid =
        (validate_block_header-IsValidHeader engine.eip1559_block now header parent check).0
          accepted in
      let small = difficulty_small parent known in
      let (base, bomb, formula, explodes) =
        engine_difficulty_total engine header parent number_small valid.timestamp timestamp_small
          small in
      record {
        parent = parent;
        known = known;
        valid = valid;
        base = base;
        bomb = bomb;
        steps = formula;
        explodes = explodes;
        difficulty =
            sym (
              (==_iff _ _).0
                (not-false _ (fail_if_accept (not (expected == header.difficulty)) _ h₃)))
            ∙ engine_difficulty_value engine header parent number_small valid.timestamp
                timestamp_small small base bomb formula explodes;
      }

  validate_complete :
      IsMined engine now state header check → validate engine now state header check ≡ accept tt
  unfolding validate
  validate_complete v =
      let valid =
        (validate_block_header-IsValidHeader engine.eip1559_block now header v.parent check).1
          v.valid in
      let value =
        engine_difficulty_value engine header v.parent number_small v.valid.timestamp
          timestamp_small (difficulty_small v.parent v.known) v.base v.bomb v.steps v.explodes in
      let same : (engine_difficulty engine header v.parent == header.difficulty) ≡ true =
        (==_iff _ _).1 (value ∙ sym v.difficulty) in
      rw (v.known, valid, same)

  -- For a header below block 25,700,000 with a timestamp of 64 bits, whose parent, if it is known,
  -- has a difficulty below 2^254, the engine accepts it exactly if its parent is known, it is valid
  -- after that parent, and its difficulty is the larger of 131072 and the sum of the formula that
  -- the switches select at its number and of the bomb: none if the chain has no bomb, and else by
  -- the periods of 100000 blocks since the delay of the last activation reached.
  pub validate-IsMined :
      (validate engine now state header check ≡ accept tt) ↔ IsMined engine now state header check
  validate-IsMined = (validate_sound, validate_complete)
