-- ===== src/Tests/Frames.antt =====
-- Runs of a block on its frame, and of the walk that compiles the blocks.
use evmbt.Prelude.{
  ℕ, ◌≡◌, refl, List, [], ◌∷◌, Option, none, some, ltb, if◌then◌else◌, arith, get_or, zero, suc,
  All, ◌<◌,
}
use evmbt.Stack.Defs.{Value, int256, Memory, Call, push_call, pop_call, swap_call, run_memory}
use evmbt.Stack.Cells.{Represents}
use evmbt.Frame.Defs.{run_block}
use evmbt.Frame.Fetched.{words}
use evmbt.Frame.Block.{SameStack, run_block-run_memory}
use evmbt.Frame.Order.{Compiled, compile_order}
use evmbt.Frame.Walk.{count_of, InRange}
use evmbt.Frame.Covered.{compile_order-once}

abbrev nine : Value
nine = record { width = 256; word = 9 }

-- Two elements, the upper one also in a register.
abbrev two_memory : Memory
two_memory = record { sp = 2; stk = λ i. nine }

two_cells : (i : ℕ) → i < 2 → 9 ≡ (get_or (nine ∷ nine ∷ []) i (int256 0)).word
two_cells zero h = refl
two_cells (suc zero) h = refl
two_cells (suc (suc i)) h = absurd (omega arith)

two_memory-Represents : Represents two_memory (nine ∷ nine ∷ [])
two_memory-Represents = record { room = omega arith; fits = omega arith; cells = two_cells }

abbrev swaps : List Call
swaps = swap_call 0 ∷ pop_call ∷ push_call nine ∷ []

run_block-run_memory_example :
    (words (run_block 0x60 [] 2 (nine ∷ []) swaps two_memory).0
      ≡ words (run_memory swaps two_memory).0)
    × SameStack
        (run_block 0x60 [] 2 (nine ∷ []) swaps two_memory).1
        (run_block 0x60 [] 2 (nine ∷ []) swaps two_memory).2
        (run_memory swaps two_memory).1
run_block-run_memory_example =
    run_block-run_memory 0x60 [] 2 (nine ∷ []) (nine ∷ nine ∷ []) swaps two_memory
      two_memory-Represents (omega arith) (λ e. (omega arith, refl))
      (omega arith, (omega arith, tt)) (omega arith)

-- Three blocks: the first two run in a circle, and from the second to nowhere.
abbrev circle : ℕ → List (Option ℕ)
circle zero = some 1 ∷ []
circle (suc zero) = some 0 ∷ none ∷ []
circle other = []

-- Each block leaves one more value.
abbrev leave : ℕ → List ℕ → List ℕ
leave i vs = 7 ∷ vs

circle-InRange : (j : ℕ) → j < 3 → All (InRange 3) (circle j)
circle-InRange zero h = (omega arith, tt)
circle-InRange (suc zero) h = (omega arith, (tt, tt))
circle-InRange (suc (suc j)) h = tt

compile_order_run :
    compile_order leave circle 3
    ≡ some (
        record { block = 0; pstack = [] }
        ∷ record { block = 1; pstack = 7 ∷ [] }
        ∷ record { block = 2; pstack = [] }
        ∷ [])
unfolding compile_order
compile_order_run = refl

compile_order-once_example :
    (order : List (Compiled ℕ)) × (compile_order leave circle 3 ≡ some order)
    × ((i : ℕ) → count_of i order ≡ (if ltb i 3 then 1 else 0))
compile_order-once_example = compile_order-once leave circle 3 (omega arith) circle-InRange
