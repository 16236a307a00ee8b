-- ===== src/Consensus/Ommers.antt =====
-- consensus/base.rs: ommers and the whole block; consensus/ethash/mod.rs: `validate_block_header`.
use martinez.Base.{
  ℕ, zero, suc, ◌-◌, Bool, true, false, Option, none, some, List, ◌++◌, ◌≡◌, refl, ap, ◌∙◌, inl,
  inr, ◌==◌, if◌then◌else◌, Bool-cases,
}
use martinez.Consensus.Types.{
  BlockHeader, header_discrete, ChainState, Verdict, accept, reject, ◌>>=◌,
}

-- The Keccak hash of the RLP of an empty list, EMPTY_LIST_HASH.
abbrev pub empty_list_hash : ℕ
empty_list_hash = 0x1dcc4de8dec75d7aab85b567b6ccd41ad312451b948a7413f0a142fd40d49347

-- `==` on headers, which is derived.
unfoldable pub same_header : BlockHeader → BlockHeader → Bool
unfolding header_discrete
same_header a b = elim (header_discrete a b) [ yes _ ↦ true | no _ ↦ false ]

pub same_header_eq : (a b : BlockHeader) → same_header a b ≡ true → a ≡ b
unfolding same_header
same_header_eq a b = go (header_discrete a b)
  where
    go : (d : Dec (a ≡ b)) → elim d [ yes _ ↦ true | no _ ↦ false ] ≡ true → a ≡ b
    go (yes e) h = e
    go (no n) h = cc

-- What is left to compare when both parents are read. The recursive call of the source is `deeper`.
abbrev kin_parents :
    Option BlockHeader
    → Option BlockHeader
    → (BlockHeader → Verdict (Bool × List BlockHeader))
    → List BlockHeader
    → Verdict (Bool × List BlockHeader)
kin_parents none branch_parent deeper old_ommers = accept (false, old_ommers)
kin_parents (some mainline_parent) none deeper old_ommers = deeper mainline_parent
kin_parents (some mainline_parent) (some branch_parent) deeper old_ommers =
    if same_header branch_parent mainline_parent
    then accept (true, old_ommers)
    else deeper mainline_parent

-- `if let Some(mainline_body)`: its ommers are noted, and the two parents are read.
abbrev kin_body :
    Verdict (Option BlockHeader)
    → Verdict (Option BlockHeader)
    → (List BlockHeader → BlockHeader → Verdict (Bool × List BlockHeader))
    → List BlockHeader
    → Option (List BlockHeader)
    → Verdict (Bool × List BlockHeader)
kin_body read_mainline read_branch deeper old_ommers none = accept (false, old_ommers)
kin_body read_mainline read_branch deeper old_ommers (some ommers) = do
  mainline_parent ← read_mainline
  branch_parent ← read_branch
  kin_parents mainline_parent branch_parent (deeper ommers) (old_ommers ++ ommers)

module _ (state : ChainState) where
  -- `checked_sub(1)`: the genesis block has no parent.
  unfoldable pub get_parent_header : BlockHeader → Verdict (Option BlockHeader)
  get_parent_header header =
      if header.number == 0
      then accept none
      else state.read_header (header.number - 1) header.parent_hash

  -- `n > 0 && branch_header != mainline_header`; `old_ommers` is extended and returned.
  unfoldable pub is_kin :
      ℕ → BlockHeader → BlockHeader → ℕ → List BlockHeader → Verdict (Bool × List BlockHeader)
  is_kin zero branch mainline mainline_hash old_ommers = accept (false, old_ommers)
  is_kin (suc n) branch mainline mainline_hash old_ommers = elim (same_header branch mainline) [
    | true ↦ accept (false, old_ommers)
    | false ↦ do
      body ← state.read_ommers mainline.number mainline_hash
      kin_body (get_parent_header mainline) (get_parent_header branch)
          (λ ommers parent. is_kin n branch parent mainline.parent_hash (old_ommers ++ ommers))
          old_ommers body
  ]

-- The parent of `branch` is one of the last `n` ancestors of `mainline`.
pub data Kin (state : ChainState) (branch : BlockHeader) : ℕ → BlockHeader → Type 0 where
  sibling :
      (n : ℕ) (mainline parent : BlockHeader)
      → get_parent_header state mainline ≡ accept (some parent)
      → get_parent_header state branch ≡ accept (some parent)
      → Kin state branch (suc n) mainline
  deeper :
      (n : ℕ) (mainline parent : BlockHeader)
      → get_parent_header state mainline ≡ accept (some parent)
      → Kin state branch n parent
      → Kin state branch (suc n) mainline

pub bind_inv {ℓ} :
    {A : Type 0} {B : Type ℓ} (m : Verdict A) (f : A → Verdict B) {b : B}
    → (m >>= f) ≡ accept b
    → (a : A) × (m ≡ accept a) × (f a ≡ accept b)
bind_inv (accept a) f h = (a, refl, h)
bind_inv (reject e) f h = cc

not_kin :
    {A : Type 0} (old out : List BlockHeader)
    → ◌≡◌ {A = Verdict (Bool × List BlockHeader)} (accept (false, old)) (accept (true, out))
    → A
not_kin old out h = absurd (cc)

module _ (state : ChainState) (branch : BlockHeader) where
  kin_parents-Kin :
      (n : ℕ) (mainline : BlockHeader) (mainline_parent branch_parent : Option BlockHeader)
      (deep : BlockHeader → Verdict (Bool × List BlockHeader)) (old out : List BlockHeader)
      → get_parent_header state mainline ≡ accept mainline_parent
      → get_parent_header state branch ≡ accept branch_parent
      → ((parent : BlockHeader) → deep parent ≡ accept (true, out) → Kin state branch n parent)
      → kin_parents mainline_parent branch_parent deep old ≡ accept (true, out)
      → Kin state branch (suc n) mainline
  kin_parents-Kin n mainline none b deep old out hm hb ih h = not_kin old out h
  kin_parents-Kin n mainline (some m) none deep old out hm hb ih h = deeper n mainline m hm (ih m h)
  kin_parents-Kin n mainline (some m) (some b) deep old out hm hb ih h =
      elim (Bool-cases (same_header b m)) [
        | inl same ↦
            sibling n mainline m hm (hb ∙ ap (λ p. accept (some p)) (same_header_eq b m same))
        | inr other ↦ deeper n mainline m hm (ih m (rw other at h))
      ]

  kin_body-Kin :
      (n : ℕ) (mainline : BlockHeader) (body : Option (List BlockHeader))
      (deep : List BlockHeader → BlockHeader → Verdict (Bool × List BlockHeader))
      (old out : List BlockHeader)
      → ((ommers : List BlockHeader) (parent : BlockHeader)
          → deep ommers parent ≡ accept (true, out)
          → Kin state branch n parent)
      → kin_body (get_parent_header state mainline) (get_parent_header state branch) deep old body
        ≡ accept (true, out)
      → Kin state branch (suc n) mainline
  kin_body-Kin n mainline none deep old out ih h = not_kin old out h
  kin_body-Kin n mainline (some ommers) deep old out ih h =
      let (m, hm, h₁) = bind_inv (get_parent_header state mainline) _ h in
      let (b, hb, h₂) = bind_inv (get_parent_header state branch) _ h₁ in
      kin_parents-Kin n mainline m b (deep ommers) (old ++ ommers) out hm hb (ih ommers) h₂

  -- If the search finds kinship within `n` generations, then the parent of the ommer is one of the
  -- last `n` ancestors of the block that the search began with.
  pub is_kin-Kin :
      (n : ℕ) (mainline : BlockHeader) (hash : ℕ) (old out : List BlockHeader)
      → is_kin state n branch mainline hash old ≡ accept (true, out)
      → Kin state branch n mainline
  unfolding is_kin
  is_kin-Kin zero mainline hash old out h = not_kin old out h
  is_kin-Kin (suc n) mainline hash old out h = elim (Bool-cases (same_header branch mainline)) [
    | inl same ↦ not_kin old out (rw (same, is_kin) at h)
    | inr other ↦
        let (body, read, e) =
          bind_inv (state.read_ommers mainline.number hash) _ (rw (other, is_kin) at h) in
        kin_body-Kin n mainline body _ old out
          (λ ommers parent k. is_kin-Kin n parent mainline.parent_hash (old ++ ommers) out k) e
  ]
