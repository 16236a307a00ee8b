-- ===== src/Consensus/Headers.antt =====
-- consensus/base.rs: `validate_block_header`, and consensus/mod.rs: `pre_validate_transaction`.
use martinez.Base.{
  ℕ, ◌+◌, ◌-◌, ◌*◌, ◌/◌, ◌%◌, ◌^◌, ◌≤◌, ◌<◌, Bool, true, false, Option, none, some, ◌≡◌, refl, sym,
  ap, ◌∙◌, subst, inl, inr, Bool-cases, ltb, leb, ◌==◌, not, ◌↔◌, if◌then◌else◌, arith, length,
}
use martinez.Consensus.Types.{
  BlockHeader, ValidationError, future_block, gas_above_limit, invalid_timestamp, wrong_base_fee,
  invalid_gas_limit, extra_data_too_long, Verdict, accept, reject, ◌>>=◌, ◌>>◌, fail_if,
}
use martinez.Consensus.Fees.{expected_base_fee_per_gas, elasticity_multiplier}
use martinez.Consensus.Eip1559.{HasBaseFee, CountsAs, expected_base_fee_per_gas-HasBaseFee}

-- Equality of the optional fees.
abbrev pub same_fee : Option ℕ → Option ℕ → Bool
same_fee none none = true
same_fee none (some b) = false
same_fee (some a) none = false
same_fee (some a) (some b) = a == b

-- The parent's gas limit, doubled at the fork to EIP-1559.
abbrev pub parent_gas_limit : Option ℕ → BlockHeader → BlockHeader → ℕ
parent_gas_limit none header parent = parent.gas_limit
parent_gas_limit (some fork_block) header parent =
    if fork_block == header.number
    then parent.gas_limit * elasticity_multiplier % 2 ^ 64
    else parent.gas_limit

abbrev pub gas_delta : ℕ → ℕ → ℕ
gas_delta gas_limit parent_limit =
    if ltb parent_limit gas_limit then gas_limit - parent_limit else parent_limit - gas_limit

abbrev check_future : Bool → ℕ → BlockHeader → Verdict (Unit {0})
check_future false now header = accept tt
check_future true now header =
    fail_if (ltb now header.timestamp) (future_block now header.timestamp)

-- The system's clock is the argument `now`; `eip1559_block` is the engine's.
unfoldable pub validate_block_header :
    Option ℕ → ℕ → BlockHeader → BlockHeader → Bool → Verdict (Unit {0})
validate_block_header eip1559_block now header parent with_future_timestamp_check = do
  check_future with_future_timestamp_check now header
  fail_if (ltb header.gas_limit header.gas_used) (gas_above_limit header.gas_used header.gas_limit)
  fail_if (ltb header.gas_limit 5000) invalid_gas_limit
  fail_if (ltb (2 ^ 63 - 1) header.gas_limit) invalid_gas_limit
  fail_if (ltb 32 (length header.extra_data)) extra_data_too_long
  fail_if (leb header.timestamp parent.timestamp)
      (invalid_timestamp parent.timestamp header.timestamp)
  let limit = parent_gas_limit eip1559_block header parent
  fail_if (leb (limit / 1024) (gas_delta header.gas_limit limit)) invalid_gas_limit
  expected ← expected_base_fee_per_gas eip1559_block header parent
  fail_if (not (same_fee header.base_fee_per_gas expected))
      (wrong_base_fee expected header.base_fee_per_gas)

-- The Yellow Paper's header validity, with EIP-1559.
pub record IsValidHeader (eip1559_block : Option ℕ) (now : ℕ) (header parent : BlockHeader)
    (check : Bool) : Type 0 where
  pub not_future : check ≡ true → header.timestamp ≤ now
  pub gas_used : header.gas_used ≤ header.gas_limit
  pub limit_low : 5000 ≤ header.gas_limit
  pub limit_high : header.gas_limit < 2 ^ 63
  pub extra_data : length header.extra_data ≤ 32
  pub timestamp : parent.timestamp < header.timestamp
  pub parent_limit : ℕ
  pub counts : CountsAs eip1559_block header parent parent_limit
  pub limit_up : header.gas_limit < parent_limit + parent_limit / 1024
  pub limit_down : parent_limit < header.gas_limit + parent_limit / 1024
  pub base_fee : HasBaseFee eip1559_block header parent header.base_fee_per_gas

pub fail_if_accept : (b : Bool) (e : ValidationError) → fail_if b e ≡ accept tt → b ≡ false
fail_if_accept true e h = cc
fail_if_accept false e h = refl

-- What passes a check and the rest.
pub fail_if_then :
    (b : Bool) (e : ValidationError) (n : Verdict (Unit {0}))
    → (fail_if b e >> n) ≡ accept tt
    → (b ≡ false) × (n ≡ accept tt)
fail_if_then true e n h = cc
fail_if_then false e n h = (refl, h)

same_fee_eq : (a b : Option ℕ) → same_fee a b ≡ true → a ≡ b
same_fee_eq a b h = ground arith

same_fee_refl : (a : Option ℕ) → same_fee a a ≡ true
same_fee_refl a = ground arith

pub future_then :
    (m n : Verdict (Unit {0})) → (m >> n) ≡ accept tt → (m ≡ accept tt) × (n ≡ accept tt)
future_then (accept tt) n h = (refl, h)
future_then (reject e) n h = cc

bind_accept :
    {A : Type 0} (m : Verdict A) (f : A → Verdict (Unit {0}))
    → (m >>= f) ≡ accept tt
    → (a : A) × (m ≡ accept a) × (f a ≡ accept tt)
bind_accept (accept a) f h = (a, refl, h)
bind_accept (reject e) f h = cc

check_future_sound :
    (check : Bool) (now : ℕ) (header : BlockHeader)
    → check_future check now header ≡ accept tt
    → check ≡ true
    → header.timestamp ≤ now
check_future_sound false now header h c = cc
check_future_sound true now header h c =
    let late = fail_if_accept (ltb now header.timestamp) _ h in ground arith

check_future_complete :
    (check : Bool) (now : ℕ) (header : BlockHeader)
    → (check ≡ true → header.timestamp ≤ now)
    → check_future check now header ≡ accept tt
check_future_complete false now header h = refl
check_future_complete true now header h =
    let late : ltb now header.timestamp ≡ false = (let le = h refl in ground arith) in rw late

pub not-false : (b : Bool) → not b ≡ false → b ≡ true
not-false true h = refl
not-false false h = cc

gas_delta_lt :
    (g p : ℕ) → leb (p / 1024) (gas_delta g p) ≡ false → (g < p + p / 1024) × (p < g + p / 1024)
gas_delta_lt g p h = ground arith

lt_gas_delta :
    (g p : ℕ) → g < p + p / 1024 → p < g + p / 1024 → leb (p / 1024) (gas_delta g p) ≡ false
lt_gas_delta g p h k = ground arith

parent_gas_limit-CountsAs :
    (eip1559_block : Option ℕ) (header parent : BlockHeader)
    → CountsAs eip1559_block header parent (parent_gas_limit eip1559_block header parent)
parent_gas_limit-CountsAs none header parent = refl
parent_gas_limit-CountsAs (some fork) header parent = elim (Bool-cases (fork == header.number)) [
  | inl same ↦ rw same (inl (ground arith, ap (λ n. n % 2 ^ 64) (omega arith)))
  | inr other ↦ rw other (inr (λ e. ground arith, refl))
]

CountsAs-unique :
    (eip1559_block : Option ℕ) (header parent : BlockHeader) (limit : ℕ)
    → CountsAs eip1559_block header parent limit
    → limit ≡ parent_gas_limit eip1559_block header parent
CountsAs-unique none header parent limit h = h
CountsAs-unique (some fork) header parent limit (inl (same, e)) =
    let at_fork : (fork == header.number) ≡ true = ground arith in
    rw at_fork (e ∙ ap (λ n. n % 2 ^ 64) (omega arith))
CountsAs-unique (some fork) header parent limit (inr (other, e)) =
    let at_fork : (fork == header.number) ≡ false = ground arith in rw at_fork e

module _ (eip1559_block : Option ℕ) (now : ℕ) (header parent : BlockHeader) (check : Bool) where
  validate_block_header_sound :
      validate_block_header eip1559_block now header parent check ≡ accept tt
      → IsValidHeader eip1559_block now header parent check
  unfolding validate_block_header
  validate_block_header_sound h =
      let limit = parent_gas_limit eip1559_block header parent in
      let (c₁, h₁) = future_then (check_future check now header) _ h in
      let (c₂, h₂) = fail_if_then (ltb header.gas_limit header.gas_used) _ _ h₁ in
      let (c₃, h₃) = fail_if_then (ltb header.gas_limit 5000) _ _ h₂ in
      let (c₄, h₄) = fail_if_then (ltb (2 ^ 63 - 1) header.gas_limit) _ _ h₃ in
      let (c₅, h₅) = fail_if_then (ltb 32 (length header.extra_data)) _ _ h₄ in
      let (c₆, h₆) = fail_if_then (leb header.timestamp parent.timestamp) _ _ h₅ in
      let (c₇, h₇) = fail_if_then (leb (limit / 1024) (gas_delta header.gas_limit limit)) _ _ h₆ in
      let (fee, e, c₈) = bind_accept (expected_base_fee_per_gas eip1559_block header parent) _ h₇ in
      let (up, down) = gas_delta_lt header.gas_limit limit c₇ in
      let same =
        same_fee_eq header.base_fee_per_gas fee
          (not-false _ (fail_if_accept (not (same_fee header.base_fee_per_gas fee)) _ c₈)) in
      record {
        not_future = check_future_sound check now header c₁;
        gas_used = ground arith;
        limit_low = ground arith;
        limit_high = ground arith;
        extra_data = ground arith;
        timestamp = ground arith;
        parent_limit = limit;
        counts = parent_gas_limit-CountsAs eip1559_block header parent;
        limit_up = up;
        limit_down = down;
        base_fee =
            (expected_base_fee_per_gas-HasBaseFee eip1559_block header parent
                header.base_fee_per_gas).0
              (e ∙ ap accept (sym same));
      }

  validate_block_header_complete :
      IsValidHeader eip1559_block now header parent check
      → validate_block_header eip1559_block now header parent check ≡ accept tt
  unfolding validate_block_header
  validate_block_header_complete v =
      let p₁ = check_future_complete check now header v.not_future in
      let p₂ : ltb header.gas_limit header.gas_used ≡ false = ground arith in
      let p₃ : ltb header.gas_limit 5000 ≡ false = ground arith in
      let p₄ : ltb (2 ^ 63 - 1) header.gas_limit ≡ false = ground arith in
      let p₅ : ltb 32 (length header.extra_data) ≡ false = ground arith in
      let p₆ : leb header.timestamp parent.timestamp ≡ false = ground arith in
      let p₇ =
        subst (λ l. leb (l / 1024) (gas_delta header.gas_limit l) ≡ false)
          (CountsAs-unique eip1559_block header parent v.parent_limit v.counts)
          (lt_gas_delta header.gas_limit v.parent_limit v.limit_up v.limit_down) in
      let fee =
        (expected_base_fee_per_gas-HasBaseFee eip1559_block header parent header.base_fee_per_gas).1
          v.base_fee in
      let p₈ = same_fee_refl header.base_fee_per_gas in rw (p₁, p₂, p₃, p₄, p₅, p₆, p₇, fee, p₈)

  -- A header is accepted exactly if it is valid: it is not in the future, where that is asked; its
  -- gas used is within its limit; the limit is at least 5000, below 2^63, and within a 1024th of
  -- the parent's, which counts twice at the fork to EIP-1559; the extra data has at most 32 bytes;
  -- it is later than its parent; and its base fee is that of EIP-1559: none before the fork, 10^9 at
  -- it, and later the parent's, moved by an eighth of it times the distance of the parent's gas used
  -- to half its gas limit, over that half, and up by one at least.
  pub validate_block_header-IsValidHeader :
      (validate_block_header eip1559_block now header parent check ≡ accept tt)
      ↔ IsValidHeader eip1559_block now header parent check
  validate_block_header-IsValidHeader =
      (validate_block_header_sound, validate_block_header_complete)
