-- ===== src/Instruction.antt =====
-- evmtrans/Instruction.h and evmtrans/Instruction.cpp: opcodes, their stack arity, and the walk
-- over bytecode. A `code_iterator` is an index into the bytecode, a list of bytes; `_end` is an
-- index too, since a basic block ends before the code does.
pub mod Table
pub mod Opcode
pub mod Decode
pub mod Boundary
unfoldable pub use Table.{stack_out, stack_in}
pub use Table.{arity_bounds}
use evmbt.Prelude.{
  ℕ, zero, suc, ◌+◌, ◌-◌, ◌*◌, ◌%◌, ◌^◌, List, Bool, ◌&&◌, get_or, ltb, leb, ◌==◌, not,
  if◌then◌else◌, min,
}

-- The opcodes that the control flow analysis names.
abbrev pub stop_op : ℕ
stop_op = 0x00

abbrev pub codecopy_op : ℕ
codecopy_op = 0x39

abbrev pub pop_op : ℕ
pop_op = 0x50

abbrev pub jump_op : ℕ
jump_op = 0x56

abbrev pub jumpi_op : ℕ
jumpi_op = 0x57

abbrev pub jumpdest_op : ℕ
jumpdest_op = 0x5b

abbrev pub push1_op : ℕ
push1_op = 0x60

abbrev pub push32_op : ℕ
push32_op = 0x7f

abbrev pub return_op : ℕ
return_op = 0xf3

abbrev pub revert_op : ℕ
revert_op = 0xfd

abbrev pub suicide_op : ℕ
suicide_op = 0xff

abbrev pub dup1_op : ℕ
dup1_op = 0x80

abbrev pub dup16_op : ℕ
dup16_op = 0x8f

abbrev pub swap1_op : ℕ
swap1_op = 0x90

abbrev pub swap16_op : ℕ
swap16_op = 0x9f

abbrev pub log0_op : ℕ
log0_op = 0xa0

abbrev pub log4_op : ℕ
log4_op = 0xa4

abbrev pub create_op : ℕ
create_op = 0xf0

abbrev pub call_op : ℕ
call_op = 0xf1

abbrev pub callcode_op : ℕ
callcode_op = 0xf2

abbrev pub delegatecall_op : ℕ
delegatecall_op = 0xf4

abbrev pub create2_op : ℕ
create2_op = 0xf5

abbrev pub staticcall_op : ℕ
staticcall_op = 0xfa

abbrev pub invalid_op : ℕ
invalid_op = 0xfe

-- `*it`, at an index inside the code.
abbrev pub byte_at : List ℕ → ℕ → ℕ
byte_at code i = get_or code i 0

abbrev pub is_push : ℕ → Bool
is_push op = leb push1_op op && leb op push32_op

-- `numBytes` of a PUSH opcode.
abbrev pub push_bytes : ℕ → ℕ
push_bytes op = op - push1_op + 1

-- The loop of `readPushData`: past the end it reads 0 and stays.
read_push_loop : List ℕ → ℕ → ℕ → ℕ → ℕ → ℕ × ℕ
read_push_loop code end zero curr value = (value, curr)
read_push_loop code end (suc n) curr value =
    let inside = not (curr == end) in
    read_push_loop code end n (if inside then curr + 1 else curr)
      ((value * 256) % 2 ^ 256 + (if inside then byte_at code curr else 0))

-- `readPushData`: the constant, and the iterator at the last byte that it read.
unfoldable pub read_push_data : List ℕ → ℕ → ℕ → ℕ × ℕ
unfolding read_push_loop
read_push_data code curr end =
    let (value, curr') = read_push_loop code end (push_bytes (byte_at code curr)) (curr + 1) 0 in
    (value, curr' - 1)

-- The loop of `skipPushData`, where `last` is `_end` after its decrement.
skip_push_loop : ℕ → ℕ → ℕ → ℕ
skip_push_loop last zero curr = curr
skip_push_loop last (suc n) curr =
    let rest = skip_push_loop last n (curr + 1) in if ltb curr last then rest else curr

-- `skipPushData`: the iterator at the last byte skipped.
unfoldable pub skip_push_data : List ℕ → ℕ → ℕ → ℕ
unfolding skip_push_loop
skip_push_data code curr end = skip_push_loop (end - 1) (push_bytes (byte_at code curr)) curr

-- `skipPushDataAndGetNext`, also the lambda of that name in `createBasicBlocks`.
unfoldable pub skip_push_data_and_get_next : List ℕ → ℕ → ℕ → ℕ
skip_push_data_and_get_next code curr end =
    let op = byte_at code curr in
    if is_push op then curr + (1 + min (push_bytes op) (end - curr - 1)) else curr + 1
