-- ===== src/Lift/Counts.antt =====
-- The cases for value opcodes against the counts of `InstrMap`.
use evmbt.Prelude.{ℕ, zero, suc, ◌+◌, ◌<◌, ◌≡◌, List, ◌++◌, Bool, true, ◌&&◌, length, drop}
use evmbt.Instruction.{dup1_op, swap1_op}
use evmbt.Instruction.Table.{stack_out, stack_in}
use evmbt.Instruction.Opcode.{
  code, add_instr, mul_instr, sub_instr, div_instr, sdiv_instr, mod_instr, smod_instr, addmod_instr,
  mulmod_instr, lt_instr, gt_instr, slt_instr, sgt_instr, eq_instr, iszero_instr, and_instr,
  or_instr, xor_instr, not_instr, shl_instr, shr_instr, sar_instr, pop_instr,
}
use evmbt.Stack.Registers.{pop}
use evmbt.Lift.Interface.{Builder}
use evmbt.Lift.Defs.{
  ValueInstruction, case_stack, add_ins, mul_ins, sub_ins, div_ins, sdiv_ins, mod_ins, smod_ins,
  addmod_ins, mulmod_ins, lt_ins, gt_ins, slt_ins, sgt_ins, eq_ins, iszero_ins, and_ins, or_ins,
  xor_ins, not_ins, shl_ins, shr_ins, sar_ins, pop_ins, push_ins, dup_ins, swap_ins,
}

-- The opcode of a case; every PUSH has the counts of PUSH1.
abbrev pub opcode : ValueInstruction → ℕ
opcode add_ins = code add_instr
opcode mul_ins = code mul_instr
opcode sub_ins = code sub_instr
opcode div_ins = code div_instr
opcode sdiv_ins = code sdiv_instr
opcode mod_ins = code mod_instr
opcode smod_ins = code smod_instr
opcode addmod_ins = code addmod_instr
opcode mulmod_ins = code mulmod_instr
opcode lt_ins = code lt_instr
opcode gt_ins = code gt_instr
opcode slt_ins = code slt_instr
opcode sgt_ins = code sgt_instr
opcode eq_ins = code eq_instr
opcode iszero_ins = code iszero_instr
opcode and_ins = code and_instr
opcode or_ins = code or_instr
opcode xor_ins = code xor_instr
opcode not_ins = code not_instr
opcode shl_ins = code shl_instr
opcode shr_ins = code shr_instr
opcode sar_ins = code sar_instr
opcode pop_ins = code pop_instr
opcode (push_ins value) = 0x60
opcode (dup_ins index) = dup1_op + index
opcode (swap_ins index) = swap1_op + index

-- A DUP or SWAP is one of the sixteen.
abbrev pub Exists : ValueInstruction → Type 0
Exists (dup_ins index) = index < 16
Exists (swap_ins index) = index < 16
Exists ins = Unit

all_below : ℕ → (ℕ → Bool) → Bool
all_below zero f = true
all_below (suc n) f = f n && all_below n f

-- The case takes as many items as `InstrMap` counts, leaves those below them, and puts as many on
-- the top.
abbrev pub Counted : {Val : Type 0} → Builder Val → ValueInstruction → List Val → Type 0
Counted {Val = Val} B ins stack =
    (pushed : List Val) × (case_stack B ins stack ≡ pushed ++ drop (stack_out (opcode ins)) stack)
    × (length pushed ≡ stack_in (opcode ins))

module _ {Val : Type 0} (B : Builder Val) (stack : List Val) where
  -- What the case has put on the top.
  abbrev top : ValueInstruction → Val
  top ins = (pop (B.const 256 0) (case_stack B ins stack)).0
