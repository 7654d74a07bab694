-- ===== src/Blocks/Defs.antt =====
-- `BasicBlock` and the loop of `createBasicBlocks`.
use evmbt.Prelude.{
  ℕ, zero, suc, ◌∷◌, [], ◌++◌, List, Bool, false, ◌||◌, Option, none, some, length, ◌==◌,
  if◌then◌else◌,
}
use evmbt.Instruction.{
  byte_at, stop_op, jump_op, jumpi_op, jumpdest_op, return_op, revert_op, suicide_op,
  skip_push_data_and_get_next,
}
use evmbt.Blocks.Depth.{ctx_dep}

pub record BasicBlock : Type 0 where
  pub first_instr_idx : ℕ
  pub begin : ℕ
  pub end : ℕ
  pub stk_in : ℕ
  pub stk_out : ℕ

-- The constructor, which runs `ctxDep`.
unfoldable pub basic_block : List ℕ → ℕ → ℕ → ℕ → BasicBlock
unfolding ctx_dep
basic_block code first_instr_idx begin end =
    let d = ctx_dep code begin end in
    record {
      first_instr_idx = first_instr_idx;
      begin = begin;
      end = end;
      stk_in = d.prev_s;
      stk_out = d.curr_s;
    }

-- The opcodes after which `createBasicBlocks` sets `isDead`.
abbrev pub is_halt : ℕ → Bool
is_halt op =
    op == jump_op || (op == return_op || (op == revert_op || (op == stop_op || op == suicide_op)))

-- The variables of the loop.
pub record Scan : Type 0 where
  pub curr : ℕ
  pub begin : ℕ
  pub is_dead : Bool
  pub blocks : List BasicBlock

-- `isEnd` after the `switch` and the test behind it.
abbrev pub is_end : List ℕ → ℕ → ℕ → Bool
is_end code op next =
    (is_halt op || op == jumpi_op) || (next == length code || byte_at code next == jumpdest_op)

-- The body of the loop for an instruction of a live block that begins at `begin`.
unfoldable pub scan_live : List ℕ → ℕ → ℕ → List BasicBlock → Scan
unfolding basic_block
scan_live code curr begin blocks =
    let op = byte_at code curr in
    let next = skip_push_data_and_get_next code curr (length code) in
    if is_end code op next
    then record {
      curr = next;
      begin = next;
      is_dead = is_halt op;
      blocks = blocks ++ basic_block code begin begin next ∷ [];
    }
    else record { curr = next; begin = begin; is_dead = is_halt op; blocks = blocks }

-- The body of the loop.
unfoldable pub scan_step : List ℕ → Scan → Scan
unfolding scan_live
scan_step code s =
    if s.is_dead
    then (if byte_at code s.curr == jumpdest_op
        then scan_live code s.curr s.curr s.blocks
        else record s { curr = skip_push_data_and_get_next code s.curr (length code) })
    else scan_live code s.curr s.begin s.blocks

-- The loop; `none` means that the fuel ran out.
unfoldable pub scan_loop : ℕ → List ℕ → Scan → Option (List BasicBlock)
scan_loop zero code s = none
scan_loop (suc fuel) code s =
    let rest = scan_loop fuel code (scan_step code s) in
    if s.curr == length code then some s.blocks else rest

abbrev pub start_scan : Scan
start_scan = record { curr = 0; begin = 0; is_dead = false; blocks = [] }

-- `createBasicBlocks`. Each round moves `curr` forward, so one round more than there are bytes is
-- fuel enough.
unfoldable pub create_basic_blocks : List ℕ → Option (List BasicBlock)
unfolding scan_loop scan_step
create_basic_blocks code = scan_loop (suc (length code)) code start_scan
