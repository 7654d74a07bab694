-- ===== src/Jumps/Resolved.antt =====
-- Where control goes after `resolveJumps`.
use evmbt.Prelude.{
  ℕ, ◌+◌, ◌≡◌, ◌≢◌, ◌⊎◌, List, Bool, Option, none, some, get_elem?, ◌==◌, if◌then◌else◌, All,
}
use evmbt.Instruction.{byte_at, jumpdest_op}
use evmbt.Blocks.{BasicBlock}
use evmbt.Blocks.Targets.{valid_jumpdests}
use evmbt.Jumps.Defs.{
  test_block, Place, code_block, jump_table_block, abort_block, Destination, constant, computed,
  Terminator, missing, jump, conditional_jump, plain, unreachable, case_successor,
}

-- What a jump to `target` must reach: the block that begins at `target` with a JUMPDEST, or
-- `Abort` when `target` is no valid jump destination.
abbrev pub Lands : List ℕ → List BasicBlock → ℕ → Place → Type 0
Lands code blocks target place =
    ((j : ℕ) × (bb : BasicBlock) × (place ≡ code_block j)
      × (get_elem? blocks j ≡ some bb)
      × (bb.first_instr_idx ≡ target)
      × (byte_at code bb.begin ≡ jumpdest_op))
    ⊎ ((place ≡ abort_block) × All (λ d. d ≢ target) (valid_jumpdests code))

-- Where control goes at run time from a block with this terminator, when `target` is the number
-- in the global and `taken` is the condition, and from `Test` to the jump table; `none` for a block without a terminator or one that
-- is not left.
abbrev pub enters : List (ℕ × ℕ) → ℕ → Place → Place
enters cases target jump_table_block = case_successor cases target
enters cases target test_block = case_successor cases target
enters cases target place = place

abbrev pub goes : List (ℕ × ℕ) → ℕ → Bool → Terminator → Option Place
goes cases target taken missing = none
goes cases target taken (jump dest first) = some (enters cases target first)
goes cases target taken (conditional_jump dest first second) =
    some (if taken then enters cases target first else enters cases target second)
goes cases target taken (plain place) = some (enters cases target place)
goes cases target taken unreachable = none

-- A constant destination is the number that the global gets.
abbrev pub Agrees : Destination → ℕ → Type 0
Agrees (constant pc) target = pc ≡ target
Agrees computed target = Unit

-- Where control goes on behind block `i` of `n`: behind the last one it runs through `Test` into the
-- jump table, with the number that the global holds.
abbrev pub falls : List (ℕ × ℕ) → ℕ → ℕ → ℕ → Place
falls cases n i target = if i + 1 == n then case_successor cases target else code_block (i + 1)
