-- ===== src/DryRun/Defs.antt =====
-- The walk over one block, `dry_run_bb`. The stack's back is the head of the list.
use evmbt.Prelude.{
  ℕ, zero, suc, ◌+◌, ◌-◌, ◌^◌, List, [], ◌∷◌, ◌++◌, Bool, true, false, ◌&&◌, ◌||◌, Option, none,
  some, length, get_or, set, replicate, ltb, leb, ◌==◌, if◌then◌else◌,
}
use evmbt.Instruction.{
  byte_at, is_push, stack_out, stack_in, read_push_data, stop_op, pop_op, jump_op, jumpi_op,
  return_op, revert_op, suicide_op, dup1_op, dup16_op, swap1_op, swap16_op, log0_op, log4_op,
  create_op, call_op, callcode_op, delegatecall_op, create2_op, staticcall_op,
}

-- The first loop of `balanced_stk`: an empty stack gets a 0, which it loses at once.
unfoldable pub balance_out : ℕ → List ℕ → List ℕ
balance_out zero stk = stk
balance_out (suc n) [] = balance_out n []
balance_out (suc n) (x ∷ stk) = balance_out n stk

-- `balanced_stk`
unfoldable pub balanced_stk : ℕ → ℕ → List ℕ → List ℕ
unfolding balance_out
balanced_stk out in_ stk = replicate in_ 0 ++ balance_out out stk

-- The POP case.
unfoldable pub dry_pop : List ℕ → List ℕ
dry_pop [] = []
dry_pop (x ∷ stack) = stack

-- The DUPn case, with its `depth`.
unfoldable pub dry_dup : ℕ → List ℕ → List ℕ
dry_dup depth stack = (if leb depth (length stack) then get_or stack (depth - 1) 0 else 0) ∷ stack

-- The SWAPn case, with its `depth`.
unfoldable pub dry_swap : ℕ → List ℕ → List ℕ
dry_swap depth stack =
    let tmp = get_or stack 0 0 in
    let deep = get_or stack depth 0 in
    if ltb depth (length stack) then set (set stack 0 deep) depth tmp else stack

-- The stack, the iterator after the round, and whether the loop goes on.
pub record Dry : Type 0 where
  pub stack : List ℕ
  pub it : ℕ
  pub go : Bool

-- The opcodes of the branches that only balance the stack.
abbrev pub is_balanced : ℕ → Bool
is_balanced op =
    ltb op 0x60
    || ((leb log0_op op && leb op log4_op)
        || (op == create_op
            || (op == call_op
                || (op == callcode_op
                    || (op == delegatecall_op || (op == create2_op || op == staticcall_op))))))

-- The opcodes of the branches that leave the function.
abbrev pub is_exit : ℕ → Bool
is_exit op =
    op == stop_op
    || (op == jump_op
        || (op == jumpi_op || (op == return_op || (op == revert_op || op == suicide_op))))

-- What the branches for all opcodes but PUSHn do to the stack.
unfoldable pub dry_stack : ℕ → List ℕ → List ℕ
unfolding balanced_stk dry_pop dry_dup dry_swap
dry_stack op stack =
    let balanced = balanced_stk (stack_out op) (stack_in op) stack in
    if op == stop_op || (op == jump_op || op == jumpi_op)
    then stack
    else if op == pop_op
    then dry_pop stack
    else if is_balanced op
    then balanced
    else if leb dup1_op op && leb op dup16_op
    then dry_dup (op - 0x7f) stack
    else if leb swap1_op op && leb op swap16_op
    then dry_swap (op - 0x8e) stack
    else if op == return_op || (op == revert_op || op == suicide_op)
    then balanced
    else stack

-- The body of the loop, with the `++it` behind it.
unfoldable pub dry_step : List ℕ → ℕ → ℕ → List ℕ → Dry
unfolding dry_stack
dry_step code end it stack =
    let op = byte_at code it in
    let (value, last) = read_push_data code it end in
    if is_push op
    then record {
      stack = (if ltb value (2 ^ 64) then value else 0) ∷ stack;
      it = last + 1;
      go = true;
    }
    else record { stack = dry_stack op stack; it = it + 1; go = if is_exit op then false else true }

-- The loop; `none` means that the fuel ran out.
unfoldable pub dry_loop : ℕ → List ℕ → ℕ → ℕ → List ℕ → Option (List ℕ)
unfolding dry_step
dry_loop zero code end it stack = none
dry_loop (suc fuel) code end it stack =
    let d = dry_step code end it stack in
    let rest = dry_loop fuel code end d.it d.stack in
    if it == end then some stack else if d.go then rest else some d.stack

-- `dry_run_bb` on the block from `begin` to `end`.
unfoldable pub dry_run_bb : List ℕ → ℕ → ℕ → List ℕ → Option (List ℕ)
unfolding dry_loop
dry_run_bb code begin end stack = dry_loop (suc (end - begin)) code end begin stack
