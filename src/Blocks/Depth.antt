-- ===== src/Blocks/Depth.antt =====
-- `BasicBlock::ctxDep`: how many stack items a block takes from its context and leaves to it.
use evmbt.Prelude.{ℕ, zero, suc, ◌+◌, ◌-◌, ◌%◌, ◌^◌, List, leb, ◌==◌, if◌then◌else◌}
use evmbt.Instruction.{byte_at, stack_out, stack_in, skip_push_data_and_get_next}

-- `prev_s` and `curr_s`, of type `uint32_t`.
pub record Depth : Type 0 where
  pub prev_s : ℕ
  pub curr_s : ℕ

-- The body of the loop for one opcode.
unfoldable pub depth_step : ℕ → Depth → Depth
depth_step opcode d =
    let out = stack_out opcode in
    let left =
      if leb out d.curr_s
      then record d { curr_s = d.curr_s - out }
      else record d { prev_s = (d.prev_s + (out - d.curr_s)) % 2 ^ 32; curr_s = 0 } in
    record left { curr_s = (left.curr_s + stack_in opcode) % 2 ^ 32 }

-- The loop from `it` to `end`; the fuel is at least the number of instructions left.
unfoldable pub depth_loop : ℕ → List ℕ → ℕ → ℕ → Depth → Depth
depth_loop zero code end it d = d
depth_loop (suc fuel) code end it d =
    let rest =
      depth_loop fuel code end (skip_push_data_and_get_next code it end)
        (depth_step (byte_at code it) d) in
    if it == end then d else rest

unfoldable pub ctx_dep : List ℕ → ℕ → ℕ → Depth
unfolding depth_loop depth_step
ctx_dep code begin end = depth_loop (end - begin) code end begin (record { prev_s = 0; curr_s = 0 })
