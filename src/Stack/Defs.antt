-- ===== src/Stack/Defs.antt =====
-- The memory mode of `GlobalStack`, and calls of it in either mode.
use evmbt.Prelude.{ℕ, ◌+◌, ◌-◌, ◌%◌, ◌^◌, List, [], ◌∷◌, ltb, ◌==◌, if◌then◌else◌}
use evmbt.Stack.Registers.{push, pop, dup, swap}

-- An LLVM integer: its width and the unsigned number that it is.
pub record Value : Type 0 where
  pub width : ℕ
  pub word : ℕ

-- `ConstantInt::get(Type::Int256Ty, n)`.
abbrev pub int256 : ℕ → Value
int256 n = record { width = 256; word = n % 2 ^ 256 }

-- The globals of the memory mode: the number behind `m_sp` and the array `mstk`. That has 512 cells;
-- what `stk` says of other indices stands for no memory of the program.
pub record Memory : Type 0 where
  pub sp : ℕ
  pub stk : ℕ → Value

-- A store to a cell of `stk`.
unfoldable pub store : ℕ → Value → (ℕ → Value) → ℕ → Value
store at v stk i = if i == at then v else stk i

-- `getPtr`: an index into `stk`, computed with 256 bits.
unfoldable pub get_ptr : Memory → ℕ → ℕ
get_ptr m idx = if ltb 0 idx then (m.sp + 2 ^ 256 - idx % 2 ^ 256) % 2 ^ 256 else m.sp

-- `CreateZExt(_value, Type::Int256Ty)`, when the types differ.
abbrev pub widen : Value → Value
widen v = if v.width == 256 then v else record { width = 256; word = v.word }

unfoldable pub push_memory : Value → Memory → Memory
unfolding store get_ptr
push_memory v m =
    let up = record m { sp = (m.sp + 1) % 2 ^ 256 } in
    record up { stk = store (get_ptr up 0) (widen v) up.stk }

unfoldable pub pop_memory : Memory → Value × Memory
unfolding get_ptr
pop_memory m = (m.stk (get_ptr m 0), record m { sp = (m.sp + 2 ^ 256 - 1) % 2 ^ 256 })

unfoldable pub dup_memory : ℕ → Memory → Memory
unfolding push_memory get_ptr
dup_memory index m = push_memory (m.stk (get_ptr m index)) m

unfoldable pub swap_memory : ℕ → Memory → Memory
unfolding store get_ptr
swap_memory index m =
    let src_val = m.stk (get_ptr m 0) in
    let dst_ptr = get_ptr m (index + 1) in
    let first = store (get_ptr m 0) (m.stk dst_ptr) m.stk in
    record m { stk = store dst_ptr src_val first }

-- The calls of the interface.
pub data Call : Type 0 where
  push_call : Value → Call
  pop_call : Call
  dup_call : ℕ → Call
  swap_call : ℕ → Call

-- A sequence of calls in either mode: what the pops gave, in order, and the state behind them.
unfoldable pub run : List Call → List Value → List Value × List Value
unfolding push pop dup swap
run [] l = ([], l)
run (push_call v ∷ calls) l = run calls (push v l)
run (pop_call ∷ calls) l =
    let (item, l') = pop (int256 0) l in let (items, l'') = run calls l' in (item ∷ items, l'')
run (dup_call i ∷ calls) l = run calls (dup (int256 0) i l)
run (swap_call i ∷ calls) l = run calls (swap (int256 0) i l)

unfoldable pub run_memory : List Call → Memory → List Value × Memory
unfolding push_memory pop_memory dup_memory swap_memory
run_memory [] m = ([], m)
run_memory (push_call v ∷ calls) m = run_memory calls (push_memory v m)
run_memory (pop_call ∷ calls) m =
    let (item, m') = pop_memory m in let (items, m'') = run_memory calls m' in (item ∷ items, m'')
run_memory (dup_call i ∷ calls) m = run_memory calls (dup_memory i m)
run_memory (swap_call i ∷ calls) m = run_memory calls (swap_memory i m)
