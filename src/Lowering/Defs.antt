-- ===== src/Lowering/Defs.antt =====
-- `LowerEVMPass::runOnFunction`. An instruction is its opcode, the width of its result and its two
-- operands; the ones that the pass does not know are one constructor.
use evmbt.Prelude.{
  ℕ, Bool, true, false, ◌||◌, Option, none, some, List, [], ◌∷◌, ◌==◌, if◌then◌else◌,
}
use evmbt.Product.Defs.{mul256, mul128}
use evmbt.Division.Defs.{udiv, urem, sdiv, srem}

pub data Opcode : Type 0 where
  udiv_op : Opcode
  urem_op : Opcode
  sdiv_op : Opcode
  srem_op : Opcode
  mul_op : Opcode
  other_op : ℕ → Opcode

-- The functions of Arith256 that the pass calls.
pub data Callee : Type 0 where
  udiv256_func : Callee
  urem256_func : Callee
  sdiv256_func : Callee
  srem256_func : Callee
  mul256_func : Callee
  mul128_func : Callee
  urem512_func : Callee

pub data Inst (Val : Type 0) : Type 0 where
  binary : Opcode → ℕ → Val → Val → Inst Val
  call : Callee → Val → Val → Inst Val

-- The switches on the type and the opcode.
unfoldable pub callee : ℕ → Opcode → Option Callee
callee width opcode =
    if width == 256
    then (elim opcode [
      | udiv_op ↦ some udiv256_func
      | urem_op ↦ some urem256_func
      | sdiv_op ↦ some sdiv256_func
      | srem_op ↦ some srem256_func
      | mul_op ↦ some mul256_func
      | other_op n ↦ none
    ])
    else (if width == 128
        then (elim opcode [ mul_op ↦ some mul128_func | _ ↦ none ])
        else (if width == 512
            then (elim opcode [ urem_op ↦ some urem512_func | _ ↦ none ])
            else none))

module _ {Val : Type 0} where
  -- `if (func)`: the call in the instruction's place.
  unfoldable pub replaced : Option Callee → Opcode → ℕ → Val → Val → Inst Val × Bool
  replaced (some func) opcode width a b = (call func a b, true)
  replaced none opcode width a b = (binary opcode width a b, false)

  -- What becomes of an instruction, and whether it is replaced.
  unfoldable pub lower_inst : Inst Val → Inst Val × Bool
  unfolding callee replaced
  lower_inst (binary opcode width a b) = replaced (callee width opcode) opcode width a b
  lower_inst (call func a b) = (call func a b, false)

  -- The loop over a block's instructions, with the flag `modified`.
  unfoldable pub lower_block : List (Inst Val) → Bool → List (Inst Val) × Bool
  unfolding lower_inst
  lower_block [] modified = ([], modified)
  lower_block (inst ∷ insts) modified =
      let lowered = lower_inst inst in
      let rest = lower_block insts (modified || lowered.1) in (lowered.0 ∷ rest.0, rest.1)

  unfoldable pub lower_blocks : List (List (Inst Val)) → Bool → List (List (Inst Val)) × Bool
  unfolding lower_block
  lower_blocks [] modified = ([], modified)
  lower_blocks (block ∷ blocks) modified =
      let lowered = lower_block block modified in
      let rest = lower_blocks blocks lowered.1 in (lowered.0 ∷ rest.0, rest.1)

  -- `runOnFunction`
  unfoldable pub run_on_function : List (List (Inst Val)) → List (List (Inst Val)) × Bool
  unfolding lower_blocks
  run_on_function blocks = lower_blocks blocks false

-- What a call computes.
unfoldable pub run_callee : Callee → ℕ → ℕ → Option ℕ
unfolding udiv urem sdiv srem mul256 mul128
run_callee udiv256_func a b = udiv a b
run_callee urem256_func a b = urem 256 a b
run_callee sdiv256_func a b = sdiv a b
run_callee srem256_func a b = srem a b
run_callee mul256_func a b = some (mul256 a b)
run_callee mul128_func a b = some (mul128 a b)
run_callee urem512_func a b = urem 512 a b
