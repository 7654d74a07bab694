-- ===== src/Tests/Stacks.antt =====
-- Runs of the operand stack, of the walk over blocks and of jumps.
use evmbt.Prelude.{◌+◌, ℕ, ◌≡◌, refl, List, [], ◌∷◌, some, All, arith, inl, inr}
use evmbt.Instruction.{stack_in, stack_out, skip_push_data_and_get_next, read_push_data}
use evmbt.Stack.{Value, Memory, Call, push_call, pop_call, dup_call, swap_call, run, run_memory}
use evmbt.Stack.Cells.{Represents}
use evmbt.Stack.Modes.{Agree, run-Agree}
use evmbt.DryRun.{dry_run_bb, dry_stack}
use evmbt.DryRun.Swaps.{dry_stack-swap}
use evmbt.Stack.Registers.{swap}
use evmbt.Instruction.{swap1_op}
use evmbt.DryRun.Known.{Known, Runs, arrived, pushes, dups, computes, dry_run_bb-Known}
use evmbt.DryRun.Termination.{dry_run_bb_total}
use evmbt.Blocks.{BasicBlock}
use evmbt.Cfg.{Edge, dry_run}
use evmbt.Cfg.Edges.{EdgeOk}
use evmbt.Cfg.Termination.{dry_run-IsEdge}

abbrev seven : Value
seven = record { width = 128; word = 7 }

abbrev nine : Value
nine = record { width = 256; word = 9 }

-- An empty array.
abbrev empty_memory : Memory
empty_memory = record { sp = 0; stk = λ i. nine }

empty_memory-Represents : Represents empty_memory []
empty_memory-Represents = record {
  room = omega arith;
  fits = omega arith;
  cells = λ i h. absurd (omega arith);
}

-- The calls of a short run.
abbrev calls : List Call
calls = push_call seven ∷ push_call nine ∷ swap_call 0 ∷ dup_call 1 ∷ pop_call ∷ pop_call ∷ []

run-Agree_example : Agree (run calls []) (run_memory calls empty_memory)
run-Agree_example = run-Agree calls [] empty_memory empty_memory-Represents (omega arith)

-- PUSH1 4 PUSH1 1 ADD DUP1 PUSH1 9 JUMP
abbrev adds : List ℕ
adds = 0x60 ∷ 0x04 ∷ 0x60 ∷ 0x01 ∷ 0x01 ∷ 0x80 ∷ 0x60 ∷ 0x09 ∷ 0x56 ∷ []

adds_run : Runs adds 9 8 (9 ∷ 5 ∷ 5 ∷ []) 0 []
unfolding read_push_data skip_push_data_and_get_next stack_in stack_out
adds_run = pushes (omega arith) refl (
    pushes (omega arith) refl (
      computes (5 ∷ []) (omega arith) refl refl (omega arith) refl
        (dups (omega arith) refl (omega arith) (pushes (omega arith) refl arrived))))

dry_run_bb-Known_example :
    (ds' : List ℕ) × (dry_run_bb adds 0 9 [] ≡ some ds') × Known ds' (9 ∷ 5 ∷ 5 ∷ [])
dry_run_bb-Known_example =
    dry_run_bb-Known adds 0 9 [] [] 8 (9 ∷ 5 ∷ 5 ∷ []) (omega arith) tt adds_run
      (inr (omega arith, inr (inl refl)))

dry_run_bb_total_example : (ds : List ℕ) × (dry_run_bb adds 0 9 (3 ∷ []) ≡ some ds)
dry_run_bb_total_example = dry_run_bb_total adds 0 9 (3 ∷ []) (omega arith)

-- PUSH1 1 PUSH1 6 JUMPI STOP JUMPDEST STOP
abbrev branches : List ℕ
branches = 0x60 ∷ 0x01 ∷ 0x60 ∷ 0x06 ∷ 0x57 ∷ 0x00 ∷ 0x5b ∷ 0x00 ∷ []

abbrev entry_block : BasicBlock
entry_block = record { first_instr_idx = 0; begin = 0; end = 5; stk_in = 0; stk_out = 0 }

abbrev other_blocks : List BasicBlock
other_blocks =
    record { first_instr_idx = 5; begin = 5; end = 6; stk_in = 0; stk_out = 0 }
    ∷ record { first_instr_idx = 6; begin = 6; end = 8; stk_in = 0; stk_out = 0 }
    ∷ []

dry_run-IsEdge_example :
    (edges : List Edge) × (dry_run branches entry_block other_blocks ≡ some edges)
    × All (λ e. EdgeOk branches (entry_block ∷ other_blocks) e.source e.target) edges
dry_run-IsEdge_example = dry_run-IsEdge branches entry_block other_blocks (omega arith)

dry_stack-swap_example : dry_stack (swap1_op + 0) (1 ∷ 2 ∷ 3 ∷ []) ≡ swap 0 (0 + 1) (1 ∷ 2 ∷ 3 ∷ [])
dry_stack-swap_example = dry_stack-swap 0 (1 ∷ 2 ∷ 3 ∷ []) (omega arith) (omega arith)

-- The dry run of SWAP1 exchanges the first item with the third.
dry_stack_run : dry_stack swap1_op (1 ∷ 2 ∷ 3 ∷ []) ≡ 3 ∷ 2 ∷ 1 ∷ []
unfolding dry_stack
dry_stack_run = refl
