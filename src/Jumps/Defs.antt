-- ===== src/Jumps/Defs.antt =====
-- The jump cases of `compileBasicBlock`, the jump table and `resolveJumps`.
use evmbt.Prelude.{ℕ, ◌+◌, List, [], ◌∷◌, Option, none, some, ◌==◌, if◌then◌else◌}
use evmbt.Stack.Registers.{pop}
use evmbt.Lift.Interface.{Builder}
use evmbt.Instruction.{byte_at, jumpdest_op, jump_op}
use evmbt.Blocks.{BasicBlock}

-- A block of the translated function.
pub data Place : Type 0 where
  code_block : ℕ → Place
  -- the block `Test`, behind the last one of the code
  test_block : Place
  jump_table_block : Place
  abort_block : Place
  exit_block : Place

-- The destination that a jump's metadata holds: a `ConstantInt` or any other value.
pub data Destination : Type 0 where
  constant : ℕ → Destination
  computed : Destination

-- `getTerminator()` of a block: none, a branch that `compileBasicBlock` made for a jump, or another.
-- A jump's branch has its successors; one that is not conditional has only the first.
pub data Terminator : Type 0 where
  missing : Terminator
  jump : Destination → Place → Terminator
  conditional_jump : Destination → Place → Place → Terminator
  plain : Place → Terminator
  unreachable : Terminator

-- The cases of the `switch` in the jump table, in the order of `addCase`: the JUMPDEST case adds one
-- when a block that begins with a JUMPDEST is compiled. `calls` are the blocks in the order in which
-- `compileMain` compiles them, each with its number.
unfoldable pub switch_cases : List ℕ → List (ℕ × BasicBlock) → List (ℕ × ℕ)
switch_cases code [] = []
switch_cases code ((i, bb) ∷ calls) =
    let rest = switch_cases code calls in
    if byte_at code bb.begin == jumpdest_op then (bb.first_instr_idx, i) ∷ rest else rest

-- `findCaseValue(...)->getCaseSuccessor()`: a number without a case has the default, `Abort`.
unfoldable pub case_successor : List (ℕ × ℕ) → ℕ → Place
case_successor [] pc = abort_block
case_successor ((k, i) ∷ cases) pc = if k == pc then code_block i else case_successor cases pc

-- The JUMP and JUMPI cases in block `i`: what they pop, and the branch that they make. `classify`
-- is `dyn_cast<ConstantInt>`. `stored` is what goes into the global `target`.
pub record JumpResult (Val : Type 0) : Type 0 where
  pub stored : Val
  pub condition : Option Val
  pub terminator : Terminator
  pub stack : List Val

unfoldable pub compile_jump :
    {Val : Type 0} → Builder Val → (Val → Destination) → ℕ → ℕ → List Val → JumpResult Val
unfolding pop
compile_jump B classify op i stack =
    let (idx, stack') = pop (B.const 256 0) stack in
    let (raw_cond, stack'') = pop (B.const 256 0) stack' in
    if op == jump_op
    then record {
      stored = idx;
      condition = none;
      terminator = jump (classify idx) jump_table_block;
      stack = stack';
    }
    else record {
      stored = idx;
      condition = some (B.icmp_ne raw_cond (B.const (B.width raw_cond) 0));
      terminator = conditional_jump (classify idx) jump_table_block (code_block (i + 1));
      stack = stack'';
    }

-- The successor that a jump to the table gets: a constant destination's own block.
abbrev pub direct : List (ℕ × ℕ) → Destination → Place → Place
direct cases (constant pc) jump_table_block = case_successor cases pc
direct cases dest place = place

-- `nextBlockIter`, of `n` blocks of code.
abbrev pub next_block : ℕ → ℕ → Place
next_block n i = if i + 1 == n then test_block else code_block (i + 1)

-- The second successor of a jump that went to the table.
abbrev pub next_if_table : Place → ℕ → ℕ → Place → Place
next_if_table jump_table_block n i place = next_block n i
next_if_table first n i place = place

-- The body of `resolveJumps` for block `i`.
unfoldable pub resolve_block : List (ℕ × ℕ) → ℕ → ℕ → Terminator → Terminator
unfolding case_successor
resolve_block cases n i missing = plain (next_block n i)
resolve_block cases n i (jump dest first) = jump dest (direct cases dest first)
resolve_block cases n i (conditional_jump dest first second) =
    conditional_jump dest (direct cases dest first) (next_if_table first n i second)
resolve_block cases n i (plain place) = plain place
resolve_block cases n i unreachable = unreachable

-- The loop over the blocks from `i` on, which ends with `Test`: that has no terminator, and behind
-- it stands the jump table.
unfoldable pub resolve_jumps : List (ℕ × ℕ) → ℕ → ℕ → List Terminator → List Terminator
unfolding resolve_block
resolve_jumps cases n i [] = plain jump_table_block ∷ []
resolve_jumps cases n i (t ∷ ts) = resolve_block cases n i t ∷ resolve_jumps cases n (i + 1) ts
