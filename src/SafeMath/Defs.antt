-- ===== src/SafeMath/Defs.antt =====
-- `getSafeMathAddFunc`, `getSafeMathSubFunc`, `getSafeMathMulFunc` and `getSafeMathUDivFunc`, and
-- the switch of `UseSafeMathPass::runOnFunction`.
use evmbt.Prelude.{ℕ, ◌/◌, Option, none, some, not, ltb, ◌==◌, if◌then◌else◌}
use evmbt.Words.{add_word, sub_word, mul_word}

-- How a call ends: it returns a word, or it calls `ethereum.revert` first.
pub data Outcome : Type 0 where
  returned : ℕ → Outcome
  reverted : ℕ → Outcome

unfoldable pub safe_add : ℕ → ℕ → Outcome
safe_add lhs rhs =
    let res = add_word 256 lhs rhs in if ltb res lhs then reverted 0 else returned res

unfoldable pub safe_sub : ℕ → ℕ → Outcome
safe_sub lhs rhs = if ltb lhs rhs then reverted 0 else returned (sub_word 256 lhs rhs)

unfoldable pub safe_mul : ℕ → ℕ → Outcome
safe_mul lhs rhs =
    let res = mul_word 256 lhs rhs in
    if lhs == 0 then returned 0 else (if not (res / lhs == rhs) then reverted 0 else returned res)

unfoldable pub safe_udiv : ℕ → ℕ → Outcome
safe_udiv lhs rhs = if rhs == 0 then reverted 0 else returned (lhs / rhs)

-- The opcodes of LLVM that the pass knows; every other one stands for itself.
pub data BinaryOpcode : Type 0 where
  add_op : BinaryOpcode
  sub_op : BinaryOpcode
  mul_op : BinaryOpcode
  udiv_op : BinaryOpcode
  other_op : ℕ → BinaryOpcode

-- The function that replaces an instruction.
unfoldable pub safe_func : BinaryOpcode → Option (ℕ → ℕ → Outcome)
unfolding safe_add safe_sub safe_mul safe_udiv
safe_func add_op = some safe_add
safe_func sub_op = some safe_sub
safe_func mul_op = some safe_mul
safe_func udiv_op = some safe_udiv
safe_func (other_op n) = none
