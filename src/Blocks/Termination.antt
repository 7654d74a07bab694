-- ===== src/Blocks/Termination.antt =====
-- The fuel of `createBasicBlocks`.
use evmbt.Prelude.{
  ℕ, zero, suc, ◌-◌, ◌<◌, ◌≤◌, ◌≡◌, ◌∙◌, List, some, length, arith, ◌==◌, Bool-cases, inl, inr,
  ne_of_beq, eq_of_beq,
}
use evmbt.Instruction.Decode.{next_bounds}
use evmbt.Blocks.Rounds.{curr-scan_step, scan_loop_end, scan_loop_next}
use evmbt.Blocks.Defs.{BasicBlock, Scan, scan_step, scan_loop, start_scan, create_basic_blocks}

scan_loop_total :
    (fuel : ℕ) (code : List ℕ) (s : Scan)
    → s.curr ≤ length code
    → length code - s.curr < fuel
    → (blocks : List BasicBlock) × (scan_loop fuel code s ≡ some blocks)
scan_loop_total zero code s b h = absurd (omega arith)
scan_loop_total (suc fuel) code s b h = elim (Bool-cases (s.curr == length code)) [
  | inl at_end ↦ (s.blocks, scan_loop_end fuel code s (eq_of_beq _ _ at_end))
  | inr inside ↦
      let lt : s.curr < length code = omega (arith, ne_of_beq s.curr (length code) inside) in
      let (blocks, e) =
        scan_loop_total fuel code (scan_step code s)
          (omega (arith, curr-scan_step code s, next_bounds code s.curr (length code) lt))
          (omega (arith, curr-scan_step code s, next_bounds code s.curr (length code) lt)) in
      (blocks, scan_loop_next fuel code s lt ∙ e)
]

-- `createBasicBlocks` returns on every code.
pub create_basic_blocks_total :
    (code : List ℕ) → (blocks : List BasicBlock) × (create_basic_blocks code ≡ some blocks)
unfolding create_basic_blocks
create_basic_blocks_total code =
    scan_loop_total (suc (length code)) code start_scan (omega arith) (omega arith)
