-- ===== src/Split/Defs.antt =====
-- The loop of `splitCode`.
use evmbt.Prelude.{
  ℕ, zero, suc, List, Bool, true, false, Option, none, some, length, ◌==◌, if◌then◌else◌,
}
use evmbt.Instruction.{byte_at, codecopy_op, return_op, push1_op, skip_push_data_and_get_next}

-- The variables of the loop; `return_pc` is the reference argument `RETURNPC`.
pub record Walk : Type 0 where
  pub curr : ℕ
  pub exist_code_copy : Bool
  pub exist_return : Bool
  pub return_pc : ℕ

-- The result: -1, or the split point. Both come with the final `RETURNPC`.
pub data Verdict : Type 0 where
  missing : ℕ → Verdict
  found : ℕ → ℕ → Verdict

-- The `switch` on one opcode, but for its `return`.
unfoldable pub walk_step : List ℕ → Walk → Walk
walk_step code w =
    let op = byte_at code w.curr in
    let next = skip_push_data_and_get_next code w.curr (length code) in
    if op == codecopy_op
    then record w { curr = next; exist_code_copy = true }
    else if op == return_op
    then (if w.exist_code_copy
        then record w { curr = next; exist_return = true; return_pc = w.curr }
        else record w { curr = next })
    else record w { curr = next }

-- The test of the PUSH1 case.
abbrev pub splits_here : List ℕ → Walk → Bool
splits_here code w = if byte_at code w.curr == push1_op then w.exist_return else false

-- The loop; `none` means that the fuel ran out.
unfoldable pub walk_loop : ℕ → List ℕ → Walk → Option Verdict
walk_loop zero code w = none
walk_loop (suc fuel) code w =
    let rest = walk_loop fuel code (walk_step code w) in
    if w.curr == length code
    then some (missing w.return_pc)
    else if splits_here code w
    then some (found w.curr w.return_pc)
    else rest

abbrev pub start_walk : ℕ → Walk
start_walk return_pc = record {
  curr = 0;
  exist_code_copy = false;
  exist_return = false;
  return_pc = return_pc;
}

-- `splitCode(_begin, _end, RETURNPC)`, with the value that `RETURNPC` has before the call.
unfoldable pub split_code : List ℕ → ℕ → Option Verdict
unfolding walk_loop walk_step
split_code code return_pc = walk_loop (suc (length code)) code (start_walk return_pc)
