-- ===== src/Frame/Defs.antt =====
-- The frame of a block in `compileMain`. A vector of values is a list whose head is its back.
use evmbt.Prelude.{
  ℕ, zero, suc, ◌+◌, ◌-◌, ◌%◌, ◌^◌, List, [], ◌∷◌, ◌++◌, Bool, false, ◌&&◌, ◌||◌, not, length, take,
  ltb, ◌==◌, if◌then◌else◌,
}
use evmbt.Instruction.{jumpdest_op, jumpi_op}
use evmbt.Stack.Registers.{push}
use evmbt.Stack.Defs.{Value, Memory, Call, push_memory, pop_memory, run}

-- The test that lets a block take over the values `pstack` of the block before it. `first` is the
-- first byte of the block, and `froms` are the first bytes of the blocks in `bbs_from`.
unfoldable pub reuses : ℕ → List ℕ → List Value → Bool
reuses first froms pstack =
    (not (first == jumpdest_op) || single_jumpi froms) && ltb 0 (length pstack)
  where
    single_jumpi : List ℕ → Bool
    single_jumpi (from ∷ []) = from == jumpi_op
    single_jumpi other = false

-- `_stack.pop()` in the memory mode, `n` times, onto the back of `depStk`.
unfoldable pub pop_items : ℕ → Memory → List Value × Memory
unfolding pop_memory
pop_items zero m = ([], m)
pop_items (suc n) m =
    let (item, m') = pop_memory m in let (items, m'') = pop_items n m' in (item ∷ items, m'')

-- The values that `depStk` takes from `pstack`, and the stack pointer behind them.
unfoldable pub take_over : ℕ → Bool → List Value → Memory → List Value × Memory
take_over stk_in reuse pstack m =
    let dep_stk = if reuse then take stk_in pstack else [] in
    (
      dep_stk,
      if reuse then record m { sp = (m.sp + 2 ^ 256 - length dep_stk % 2 ^ 256) % 2 ^ 256 } else m,
    )

-- The loop over `depStk` from its back on: the calls of `_stack.push` with registers enabled.
unfoldable pub push_items : List Value → List Value → List Value
unfolding push
push_items [] m_local = m_local
push_items (item ∷ items) m_local = push item (push_items items m_local)

-- All that stands before the call of `compileBasicBlock`: the local stack, and the memory.
unfoldable pub fetch : ℕ → Bool → List Value → Memory → List Value × Memory
unfolding take_over pop_items push_items
fetch stk_in reuse pstack m =
    let (dep_stk, m') = take_over stk_in reuse pstack m in
    let (items, m'') = pop_items (stk_in - length dep_stk) m' in
    (push_items (dep_stk ++ items) [], m'')

-- The loop over `_stack.view()`, from the front of the vector on, with registers disabled.
unfoldable pub store_items : List Value → Memory → Memory
unfolding push_memory
store_items [] m = m
store_items (item ∷ items) m = push_memory item (store_items items m)

-- One block, whose code makes the `calls`: what its pops give, the local stack that the blocks
-- behind it get, and the memory.
unfoldable pub run_block :
    ℕ → List ℕ → ℕ → List Value → List Call → Memory → List Value × List Value × Memory
unfolding fetch run store_items reuses
run_block first froms stk_in pstack calls m =
    let (m_local, m') = fetch stk_in (reuses first froms pstack) pstack m in
    let (items, view) = run calls m_local in (items, view, store_items view m')
