-- ===== src/Evm/Jumps.antt =====
-- src/execution/evm/interpreter.rs: the analysis of a code, and the jump destinations.
use martinez.Base.{
  ℕ, zero, suc, ◌+◌, ◌-◌, Bool, true, false, ◌&&◌, List, ltb, leb, ◌==◌, if◌then◌else◌, length, Set,
  no_element, update, unwrap_or, get_elem?, resize,
}
use martinez.Evm.OpCodes.{op_jumpdest, op_push, op_stop}

-- How far the next instruction is: the data of PUSH1 to PUSH32 is skipped.
unfoldable pub width : ℕ → ℕ
width opcode =
    if leb (op_push 1) opcode && leb opcode (op_push 32) then opcode - op_push 1 + 2 else 1

-- `code[i]`, for the loop only where `i` is in range.
abbrev pub byte_at : List ℕ → ℕ → ℕ
byte_at code i = unwrap_or op_stop (get_elem? code i)

abbrev pub mark : ℕ → ℕ → Set → Set
mark opcode i map = if opcode == op_jumpdest then update map i true else map

-- The `while` loop on fuel: its last index and the map.
unfoldable pub analyze_loop : ℕ → List ℕ → ℕ → Set → ℕ × Set
analyze_loop zero code i map = (i, map)
analyze_loop (suc n) code i map = elim (ltb i (length code)) [
  | true ↦ analyze_loop n code (i + width (byte_at code i)) (mark (byte_at code i) i map)
  | false ↦ (i, map)
]

pub record JumpdestMap : Type 0 where
  pub size : ℕ
  pub marks : Set

pub record AnalyzedCode : Type 0 where
  pub jumpdest_map : JumpdestMap
  pub code : List ℕ
  pub padded_code : List ℕ

-- Each round of the loop goes on by one at least, so the length is fuel enough.
unfoldable pub analyze : List ℕ → AnalyzedCode
analyze code =
    let (i, map) = analyze_loop (length code) code 0 no_element in
    record {
      jumpdest_map = record { size = length code; marks = map };
      code = code;
      padded_code = resize (i + 1) op_stop code;
    }

unfoldable pub contains : JumpdestMap → ℕ → Bool
contains map dst = ltb dst map.size && map.marks dst
