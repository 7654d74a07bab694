-- ===== src/Lift/Cases.antt =====
-- The cases of the `switch` in `compileBasicBlock`, each on the operand stack in register mode. The
-- debug metadata that a case sets on its result is left out; the cast of the result to an instruction
-- before that stands in Defs.
use evmbt.Prelude.{ℕ, ◌-◌, List, ◌==◌, if◌then◌else◌}
use evmbt.Instruction.{dup1_op, swap1_op}
use evmbt.Stack.Registers.{push, pop, dup, swap}
use evmbt.Lift.Interface.{Builder}

module _ {Val : Type 0} (B : Builder Val) where
  -- `Constant::get(n)`
  abbrev pub word : ℕ → Val
  word n = B.const 256 n

  -- The zero that `GlobalStack` gives for a missing item.
  abbrev pub zero_word : Val
  zero_word = B.const 256 0

  -- Two pops, and `body` on what they gave.
  abbrev pub pop_two : List Val → (Val → Val → Val) → List Val
  pop_two stack body =
      let (first, stack') = pop zero_word stack in
      let (second, stack'') = pop zero_word stack' in push (body first second) stack''

  -- Three pops.
  abbrev pub pop_three : List Val → (Val → Val → Val → Val) → List Val
  pop_three stack body =
      let (first, stack') = pop zero_word stack in
      let (second, stack'') = pop zero_word stack' in
      let (third, stack3) = pop zero_word stack'' in push (body first second third) stack3

  -- The test that most cases begin with: operands of different types are extended to words.
  abbrev pub widen : (Val → Val → Val) → Val → Val → Val
  widen op lhs rhs =
      if B.width lhs == B.width rhs then op lhs rhs else op (B.zext lhs 256) (B.zext rhs 256)

  unfoldable pub compile_add : List Val → List Val
  unfolding push pop
  compile_add stack = pop_two stack (widen B.add)

  unfoldable pub compile_sub : List Val → List Val
  unfolding push pop
  compile_sub stack = pop_two stack (widen B.sub)

  -- Of operands of different types, the second is lost: both become the first.
  unfoldable pub compile_mul : List Val → List Val
  unfolding push pop
  compile_mul stack = pop_two stack (λ lhs rhs.
      if B.width lhs == B.width rhs
      then B.mul lhs rhs
      else let lhs' = B.zext lhs 256 in B.mul lhs' (B.zext lhs' 256))

  unfoldable pub compile_div : List Val → List Val
  unfolding push pop
  compile_div stack = pop_two stack (widen B.udiv)

  unfoldable pub compile_sdiv : List Val → List Val
  unfolding push pop
  compile_sdiv stack = pop_two stack (widen B.sdiv)

  unfoldable pub compile_mod : List Val → List Val
  unfolding push pop
  compile_mod stack = pop_two stack (widen B.urem)

  unfoldable pub compile_smod : List Val → List Val
  unfolding push pop
  compile_smod stack = pop_two stack (widen B.srem)

  unfoldable pub compile_addmod : List Val → List Val
  unfolding push pop
  compile_addmod stack = pop_three stack (λ a b m.
      let div_by_zero = B.icmp_eq m (word 0) in
      let result = B.urem (B.nuw_add (B.zext a 512) (B.zext b 512)) (B.zext m 512) in
      B.select div_by_zero (word 0) (B.trunc result 256))

  unfoldable pub compile_mulmod : List Val → List Val
  unfolding push pop
  compile_mulmod stack = pop_three stack (λ a b m.
      let div_by_zero = B.icmp_eq m (word 0) in
      let result = B.urem (B.nuw_mul (B.zext a 512) (B.zext b 512)) (B.zext m 512) in
      B.select div_by_zero (word 0) (B.trunc result 256))

  unfoldable pub compile_not : List Val → List Val
  unfolding push pop
  compile_not stack = let (value, stack') = pop zero_word stack in push (B.not value) stack'

  unfoldable pub compile_lt : List Val → List Val
  unfolding push pop
  compile_lt stack = pop_two stack (λ lhs rhs. B.zext (widen B.icmp_ult lhs rhs) 256)

  unfoldable pub compile_gt : List Val → List Val
  unfolding push pop
  compile_gt stack = pop_two stack (λ lhs rhs. B.zext (widen B.icmp_ugt lhs rhs) 256)

  unfoldable pub compile_slt : List Val → List Val
  unfolding push pop
  compile_slt stack = pop_two stack (λ lhs rhs. B.zext (widen B.icmp_slt lhs rhs) 256)

  unfoldable pub compile_sgt : List Val → List Val
  unfolding push pop
  compile_sgt stack = pop_two stack (λ lhs rhs. B.zext (widen B.icmp_sgt lhs rhs) 256)

  unfoldable pub compile_eq : List Val → List Val
  unfolding push pop
  compile_eq stack = pop_two stack (λ lhs rhs. B.zext (widen B.icmp_eq lhs rhs) 256)

  unfoldable pub compile_iszero : List Val → List Val
  unfolding push pop
  compile_iszero stack =
      let (top, stack') = pop zero_word stack in
      push (B.zext (B.icmp_eq top (B.const (B.width top) 0)) 256) stack'

  unfoldable pub compile_and : List Val → List Val
  unfolding push pop
  compile_and stack = pop_two stack (widen B.and)

  unfoldable pub compile_or : List Val → List Val
  unfolding push pop
  compile_or stack = pop_two stack (widen B.or)

  unfoldable pub compile_xor : List Val → List Val
  unfolding push pop
  compile_xor stack = pop_two stack (widen B.xor)

  unfoldable pub compile_shl : List Val → List Val
  unfolding push pop
  compile_shl stack = pop_two stack (λ shift value. B.shl value shift)

  unfoldable pub compile_shr : List Val → List Val
  unfolding push pop
  compile_shr stack = pop_two stack (λ shift value. B.lshr value shift)

  unfoldable pub compile_sar : List Val → List Val
  unfolding push pop
  compile_sar stack = pop_two stack (λ shift value. B.ashr value shift)

  unfoldable pub compile_pop : List Val → List Val
  unfolding push pop
  compile_pop stack = (pop zero_word stack).1

  -- `ANY_DUP`
  unfoldable pub compile_dup : ℕ → List Val → List Val
  unfolding dup
  compile_dup op stack = dup zero_word (op - dup1_op) stack

  -- `ANY_SWAP`
  unfoldable pub compile_swap : ℕ → List Val → List Val
  unfolding swap
  compile_swap op stack = swap zero_word (op - swap1_op) stack
