-- ===== src/Lift/Defs.antt =====
-- The `switch` over the value opcodes.
use evmbt.Prelude.{
  Bool, true, false, not, ◌&&◌, Option, none, some, ◌>>=◌, if◌then◌else◌, ℕ, ◌+◌, List, [], ◌∷◌,
}
use evmbt.Instruction.{dup1_op, swap1_op}
use evmbt.Stack.Registers.{push, pop}
use evmbt.Lift.Interface.{Builder}
use evmbt.Lift.Cases.{
  compile_add, compile_mul, compile_sub, compile_div, compile_sdiv, compile_mod, compile_smod,
  compile_addmod, compile_mulmod, compile_lt, compile_gt, compile_slt, compile_sgt, compile_eq,
  compile_iszero, compile_and, compile_or, compile_xor, compile_not, compile_shl, compile_shr,
  compile_sar, compile_pop, compile_dup, compile_swap, word,
}

-- The value opcodes of `enum class Instruction`. A PUSH comes with the number that `readPushData`
-- reads, a DUP or SWAP with its distance from DUP1 or SWAP1.
pub data ValueInstruction : Type 0 where
  add_ins : ValueInstruction
  mul_ins : ValueInstruction
  sub_ins : ValueInstruction
  div_ins : ValueInstruction
  sdiv_ins : ValueInstruction
  mod_ins : ValueInstruction
  smod_ins : ValueInstruction
  addmod_ins : ValueInstruction
  mulmod_ins : ValueInstruction
  lt_ins : ValueInstruction
  gt_ins : ValueInstruction
  slt_ins : ValueInstruction
  sgt_ins : ValueInstruction
  eq_ins : ValueInstruction
  iszero_ins : ValueInstruction
  and_ins : ValueInstruction
  or_ins : ValueInstruction
  xor_ins : ValueInstruction
  not_ins : ValueInstruction
  shl_ins : ValueInstruction
  shr_ins : ValueInstruction
  sar_ins : ValueInstruction
  pop_ins : ValueInstruction
  push_ins : ℕ → ValueInstruction
  dup_ins : ℕ → ValueInstruction
  swap_ins : ℕ → ValueInstruction

-- The cases with `cast<Instruction>(result)`.
abbrev pub casts : ValueInstruction → Bool
casts pop_ins = false
casts (push_ins value) = false
casts (dup_ins index) = false
casts (swap_ins index) = false
casts ins = true

module _ {Val : Type 0} (B : Builder Val) where
  -- `ANY_PUSH`
  unfoldable pub compile_push : ℕ → List Val → List Val
  unfolding push
  compile_push value stack = push (word B value) stack

  -- The stack that the case of one instruction leaves.
  unfoldable pub case_stack : ValueInstruction → List Val → List Val
  unfolding compile_add compile_mul compile_sub compile_div compile_sdiv compile_mod compile_smod
      compile_addmod compile_mulmod compile_lt compile_gt compile_slt compile_sgt compile_eq
      compile_iszero compile_and compile_or compile_xor compile_not compile_shl compile_shr
      compile_sar compile_pop compile_push compile_dup compile_swap
  case_stack add_ins stack = compile_add B stack
  case_stack mul_ins stack = compile_mul B stack
  case_stack sub_ins stack = compile_sub B stack
  case_stack div_ins stack = compile_div B stack
  case_stack sdiv_ins stack = compile_sdiv B stack
  case_stack mod_ins stack = compile_mod B stack
  case_stack smod_ins stack = compile_smod B stack
  case_stack addmod_ins stack = compile_addmod B stack
  case_stack mulmod_ins stack = compile_mulmod B stack
  case_stack lt_ins stack = compile_lt B stack
  case_stack gt_ins stack = compile_gt B stack
  case_stack slt_ins stack = compile_slt B stack
  case_stack sgt_ins stack = compile_sgt B stack
  case_stack eq_ins stack = compile_eq B stack
  case_stack iszero_ins stack = compile_iszero B stack
  case_stack and_ins stack = compile_and B stack
  case_stack or_ins stack = compile_or B stack
  case_stack xor_ins stack = compile_xor B stack
  case_stack not_ins stack = compile_not B stack
  case_stack shl_ins stack = compile_shl B stack
  case_stack shr_ins stack = compile_shr B stack
  case_stack sar_ins stack = compile_sar B stack
  case_stack pop_ins stack = compile_pop B stack
  case_stack (push_ins value) stack = compile_push value stack
  case_stack (dup_ins index) stack = compile_dup B (dup1_op + index) stack
  case_stack (swap_ins index) stack = compile_swap B (swap1_op + index) stack

  -- The case of one instruction: in all but four, the value that it pushed is cast to an
  -- instruction, which asserts on a constant.
  unfoldable pub compile_value : ValueInstruction → List Val → Option (List Val)
  unfolding case_stack
  compile_value ins stack =
      let stack' = case_stack ins stack in
      if casts ins && not (B.is_instruction (pop (word B 0) stack').0) then none else some stack'

  -- The loop over a run of value opcodes.
  unfoldable pub compile_values : List ValueInstruction → List Val → Option (List Val)
  unfolding compile_value
  compile_values [] stack = some stack
  compile_values (ins ∷ rest) stack = compile_value ins stack >>= compile_values rest

  -- Every value that is cast is an instruction.
  unfoldable pub all_cast : List ValueInstruction → List Val → Bool
  unfolding case_stack
  all_cast [] stack = true
  all_cast (ins ∷ rest) stack =
      let stack' = case_stack ins stack in
      not (casts ins && not (B.is_instruction (pop (word B 0) stack').0)) && all_cast rest stack'
