-- ===== src/Blocks/Rounds.antt =====
-- The rounds of the loop of `createBasicBlocks`, one equation for each branch.
use evmbt.Prelude.{ℕ, suc, ◌<◌, ◌≡◌, List, [], ◌∷◌, ◌++◌, true, false, some, length, arith, ◌==◌}
use evmbt.Instruction.{byte_at, jumpdest_op, skip_push_data_and_get_next}
use evmbt.Blocks.Defs.{
  BasicBlock, basic_block, Scan, is_halt, is_end, scan_live, scan_step, scan_loop,
}

pub curr-scan_step :
    (code : List ℕ) (s : Scan)
    → (scan_step code s).curr ≡ skip_push_data_and_get_next code s.curr (length code)
unfolding scan_step
curr-scan_step code s = ground arith

-- At the end the loop returns, before it the loop goes on from the next state.
pub scan_loop_end :
    (fuel : ℕ) (code : List ℕ) (s : Scan)
    → s.curr ≡ length code
    → scan_loop (suc fuel) code s ≡ some s.blocks
unfolding scan_loop
scan_loop_end fuel code s h = ground arith

pub scan_loop_next :
    (fuel : ℕ) (code : List ℕ) (s : Scan)
    → s.curr < length code
    → scan_loop (suc fuel) code s ≡ scan_loop fuel code (scan_step code s)
unfolding scan_loop
scan_loop_next fuel code s h = ground arith

-- The four kinds of rounds.
pub scan_live-cut :
    (code : List ℕ) (curr begin : ℕ) (blocks : List BasicBlock)
    → let j = skip_push_data_and_get_next code curr (length code) in
      is_end code (byte_at code curr) j ≡ true
      → scan_live code curr begin blocks ≡ record {
        curr = j;
        begin = j;
        is_dead = is_halt (byte_at code curr);
        blocks = blocks ++ basic_block code begin begin j ∷ [];
      }
unfolding scan_live
scan_live-cut code curr begin blocks e = ground arith

pub scan_live-go :
    (code : List ℕ) (curr begin : ℕ) (blocks : List BasicBlock)
    → let j = skip_push_data_and_get_next code curr (length code) in
      is_end code (byte_at code curr) j ≡ false
      → scan_live code curr begin blocks
        ≡ record { curr = j; begin = begin; is_dead = is_halt (byte_at code curr); blocks = blocks }
unfolding scan_live
scan_live-go code curr begin blocks e = ground arith

module _ (code : List ℕ) (s : Scan) where
  pub scan_step_live : s.is_dead ≡ false → scan_step code s ≡ scan_live code s.curr s.begin s.blocks
  unfolding scan_step
  scan_step_live e = ground arith

  pub scan_step_revive :
      s.is_dead ≡ true
      → (byte_at code s.curr == jumpdest_op) ≡ true
      → scan_step code s ≡ scan_live code s.curr s.curr s.blocks
  unfolding scan_step
  scan_step_revive e d = ground arith

  pub scan_step_dead :
      s.is_dead ≡ true
      → (byte_at code s.curr == jumpdest_op) ≡ false
      → scan_step code s ≡ record s { curr = skip_push_data_and_get_next code s.curr (length code) }
  unfolding scan_step
  scan_step_dead e d = ground arith
