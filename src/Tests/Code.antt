-- ===== src/Tests/Code.antt =====
-- Runs of the code analyses on short bytecode.
use evmbt.Prelude.{
  ℕ, ◌+◌, ◌≡◌, refl, List, [], ◌∷◌, none, some, All, arith, leb, if◌then◌else◌, ◌-◌,
}
use evmbt.Instruction.{
  stack_in, stack_out, read_push_data, skip_push_data, skip_push_data_and_get_next,
}
use evmbt.Instruction.Decode.{push_iterators_agree, big_endian, read_push_data-big_endian}
use evmbt.Blocks.{BasicBlock, create_basic_blocks}
use evmbt.Blocks.Defs.{basic_block}
use evmbt.Blocks.Termination.{create_basic_blocks_total}
use evmbt.Blocks.Structure.{IsBlock, Chained, create_basic_blocks-WellCut}
use evmbt.Blocks.Context.{run_heights, basic_block-run_heights}
use evmbt.Split.{split_code}
use evmbt.Split.Sound.{IsSplit, split_code-IsSplit}

-- PUSH1 4 JUMP INVALID JUMPDEST CALLER PUSH2 0x5b with its second byte cut off
abbrev jumps : List ℕ
jumps = 0x60 ∷ 0x04 ∷ 0x56 ∷ 0xfe ∷ 0x5b ∷ 0x33 ∷ 0x61 ∷ 0x5b ∷ []

-- The blocks of `jumps`.
abbrev jumps_blocks : List BasicBlock
jumps_blocks =
    record { first_instr_idx = 0; begin = 0; end = 3; stk_in = 0; stk_out = 0 }
    ∷ record { first_instr_idx = 4; begin = 4; end = 8; stk_in = 0; stk_out = 2 }
    ∷ []

jumps_cut : create_basic_blocks jumps ≡ some jumps_blocks
unfolding create_basic_blocks skip_push_data_and_get_next stack_in stack_out
jumps_cut = refl

push_iterators_agree_example :
    ((read_push_data jumps 6 8).1 ≡ skip_push_data jumps 6 8)
    × (skip_push_data jumps 6 8 + 1 ≡ skip_push_data_and_get_next jumps 6 8)
push_iterators_agree_example = push_iterators_agree jumps 6 8 (omega arith) refl

read_push_data-big_endian_example : (read_push_data jumps 6 8).0 ≡ big_endian jumps 8 2 7
read_push_data-big_endian_example =
    read_push_data-big_endian jumps 6 8 (omega arith) (omega arith) refl

create_basic_blocks_total_example :
    (blocks : List BasicBlock) × (create_basic_blocks jumps ≡ some blocks)
create_basic_blocks_total_example = create_basic_blocks_total jumps

create_basic_blocks-WellCut_example : All (IsBlock jumps) jumps_blocks × Chained 0 jumps_blocks
create_basic_blocks-WellCut_example = create_basic_blocks-WellCut jumps jumps_blocks jumps_cut

basic_block-run_heights_example :
    let bb = basic_block jumps 4 4 8 in
    run_heights 4 jumps 8 4 (some 3)
    ≡ (if leb bb.stk_in 3 then some (3 - bb.stk_in + bb.stk_out) else none)
basic_block-run_heights_example = basic_block-run_heights jumps 4 4 8 3 (omega arith) (omega arith)

-- CODECOPY RETURN PUSH1 0x80
abbrev deployment : List ℕ
deployment = 0x39 ∷ 0xf3 ∷ 0x60 ∷ 0x80 ∷ []

split_code-IsSplit_example : IsSplit deployment (split_code deployment 0)
split_code-IsSplit_example = split_code-IsSplit deployment 0
