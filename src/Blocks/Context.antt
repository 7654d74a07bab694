-- ===== src/Blocks/Context.antt =====
-- `ctxDep` against a run of the block over stack heights.
use evmbt.Prelude.{
  ℕ, zero, suc, ◌+◌, ◌-◌, ◌*◌, ◌^◌, ◌<◌, ◌≤◌, ◌≡◌, ◌∙◌, refl, sym, ap, List, Option, none, some,
  arith, ◌==◌, leb, if◌then◌else◌, Bool-cases, inl, inr, ne_of_beq, eq_of_beq,
}
use evmbt.Instruction.{arity_bounds, byte_at, stack_out, stack_in, skip_push_data_and_get_next}
use evmbt.Instruction.Decode.{next_bounds}
use evmbt.Blocks.Depth.{Depth, depth_step, depth_loop}
use evmbt.Blocks.Defs.{basic_block}

-- One opcode on a stack of a known height; `none` is an underflow.
pub height_step : ℕ → Option ℕ → Option ℕ
height_step op none = none
height_step op (some h) =
    if leb (stack_out op) h then some (h - stack_out op + stack_in op) else none

-- The instructions from `it` to `end` on a stack of a known height.
pub run_heights : ℕ → List ℕ → ℕ → ℕ → Option ℕ → Option ℕ
run_heights zero code end it h = h
run_heights (suc fuel) code end it h =
    let rest =
      run_heights fuel code end (skip_push_data_and_get_next code it end)
        (height_step (byte_at code it) h) in
    if it == end then h else rest

-- What a `Depth` says of a stack of height `h`.
abbrev summary : Depth → ℕ → Option ℕ
summary d h = if leb d.prev_s h then some (h - d.prev_s + d.curr_s) else none

record Fits (room : ℕ) (d : Depth) : Type 0 where
  prev_fits : d.prev_s + room < 2 ^ 32
  curr_fits : d.curr_s + room < 2 ^ 32

depth_step-Fits :
    (op room rest : ℕ) (d : Depth) → rest + 17 ≤ room → Fits room d → Fits rest (depth_step op d)
unfolding depth_step
depth_step-Fits op room rest d h f = ground (arith, arity_bounds op)

height_step-summary :
    (op room h : ℕ) (d : Depth)
    → 17 ≤ room
    → Fits room d
    → height_step op (summary d h) ≡ summary (depth_step op d) h
unfolding depth_step height_step
height_step-summary op room h d r f = ground (arith, arity_bounds op)

run_heights_end :
    (fuel : ℕ) (code : List ℕ) (end it : ℕ) (h : Option ℕ)
    → it ≡ end
    → run_heights fuel code end it h ≡ h
unfolding run_heights
run_heights_end zero code end it h e = refl
run_heights_end (suc fuel) code end it h e = ground arith

depth_loop_end :
    (fuel : ℕ) (code : List ℕ) (end it : ℕ) (d : Depth)
    → it ≡ end
    → depth_loop fuel code end it d ≡ d
unfolding depth_loop
depth_loop_end zero code end it d e = refl
depth_loop_end (suc fuel) code end it d e = ground arith

run_heights_next :
    (fuel : ℕ) (code : List ℕ) (end it : ℕ) (h : Option ℕ)
    → it < end
    → run_heights (suc fuel) code end it h
      ≡ run_heights fuel code end
          (skip_push_data_and_get_next code it end)
          (height_step (byte_at code it) h)
unfolding run_heights
run_heights_next fuel code end it h e = ground arith

depth_loop_next :
    (fuel : ℕ) (code : List ℕ) (end it : ℕ) (d : Depth)
    → it < end
    → depth_loop (suc fuel) code end it d
      ≡ depth_loop fuel code end
          (skip_push_data_and_get_next code it end)
          (depth_step (byte_at code it) d)
unfolding depth_loop
depth_loop_next fuel code end it d e = ground arith

run_heights-summary :
    (fuel : ℕ) (code : List ℕ) (end it h : ℕ) (d : Depth)
    → it ≤ end
    → end - it ≤ fuel
    → Fits (17 * (end - it)) d
    → run_heights fuel code end it (summary d h) ≡ summary (depth_loop fuel code end it d) h
run_heights-summary zero code end it h d le enough f = unfold run_heights depth_loop in refl
run_heights-summary (suc fuel) code end it h d le enough f = elim (Bool-cases (it == end)) [
  | inl at_end ↦
      let e : it ≡ end = eq_of_beq it end at_end in
      rw (
        run_heights_end (suc fuel) code end it (summary d h) e,
        depth_loop_end (suc fuel) code end it d e,
      )
  | inr inside ↦
      let lt : it < end = omega (arith, ne_of_beq it end inside) in
      let op = byte_at code it in
      let j = skip_push_data_and_get_next code it end in
      let bounds : (it < j) × (j ≤ end) = next_bounds code it end lt in
      let room : 17 * (end - j) + 17 ≤ 17 * (end - it) = omega arith in
      rw
        (
          run_heights_next fuel code end it (summary d h) lt,
          depth_loop_next fuel code end it d lt,
          height_step-summary op (17 * (end - it)) h d (omega arith) f,
        )
        (run_heights-summary fuel code end j h (depth_step op d) bounds.1 (omega arith)
          (depth_step-Fits op (17 * (end - it)) (17 * (end - j)) d room f))
]

-- On a stack of height `h`, a block of fewer than 2^32 / 17 bytes underflows exactly if `h` is
-- below its `stk_in`, and otherwise replaces `stk_in` items by `stk_out` items.
pub basic_block-run_heights :
    (code : List ℕ) (idx begin end h : ℕ)
    → begin ≤ end
    → 17 * (end - begin) < 2 ^ 32
    → let bb = basic_block code idx begin end in
      run_heights (end - begin) code end begin (some h)
      ≡ (if leb bb.stk_in h then some (h - bb.stk_in + bb.stk_out) else none)
unfolding basic_block
basic_block-run_heights code idx begin end h le small =
    let start : Depth = record { prev_s = 0; curr_s = 0 } in
    let height : summary start h ≡ some h = ground arith in
    ap (run_heights (end - begin) code end begin) (sym height)
    ∙ run_heights-summary (end - begin) code end begin h start le (omega arith) (omega arith)
