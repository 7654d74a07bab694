-- ===== src/Instruction/Table.antt =====
-- `InstrMap` of evmtrans/Instruction.h: how many items an opcode takes from the stack and how many
-- it leaves, by opcode. The names in the table are for messages only and are left out.
use evmbt.Prelude.{ℕ, ◌≤◌, List, [], ◌∷◌, arith, ◌==◌, if◌then◌else◌, All}

-- Entries are (opcode, items taken, items left).
abbrev pub instr_map : List (ℕ × ℕ × ℕ)
instr_map =
    (0x00, 0, 0)
    ∷ (0x01, 2, 1)
    ∷ (0x02, 2, 1)
    ∷ (0x03, 2, 1)
    ∷ (0x04, 2, 1)
    ∷ (0x05, 2, 1)
    ∷ (0x06, 2, 1)
    ∷ (0x07, 2, 1)
    ∷ (0x08, 3, 1)
    ∷ (0x09, 3, 1)
    ∷ (0x0a, 2, 1)
    ∷ (0x0b, 2, 1)
    ∷ (0x10, 2, 1)
    ∷ (0x11, 2, 1)
    ∷ (0x12, 2, 1)
    ∷ (0x13, 2, 1)
    ∷ (0x14, 2, 1)
    ∷ (0x15, 1, 1)
    ∷ (0x16, 2, 1)
    ∷ (0x17, 2, 1)
    ∷ (0x18, 2, 1)
    ∷ (0x19, 1, 1)
    ∷ (0x1a, 2, 1)
    ∷ (0x1b, 2, 1)
    ∷ (0x1c, 2, 1)
    ∷ (0x1d, 2, 1)
    ∷ (0x20, 2, 1)
    ∷ (0x30, 0, 1)
    ∷ (0x31, 1, 1)
    ∷ (0x32, 0, 1)
    ∷ (0x33, 0, 1)
    ∷ (0x34, 0, 1)
    ∷ (0x35, 1, 1)
    ∷ (0x36, 0, 1)
    ∷ (0x37, 3, 0)
    ∷ (0x38, 0, 1)
    ∷ (0x39, 3, 0)
    ∷ (0x3a, 0, 1)
    ∷ (0x3b, 1, 1)
    ∷ (0x3c, 4, 0)
    ∷ (0x3d, 0, 1)
    ∷ (0x3e, 3, 0)
    ∷ (0x3f, 1, 1)
    ∷ (0x40, 1, 1)
    ∷ (0x41, 0, 1)
    ∷ (0x42, 0, 1)
    ∷ (0x43, 0, 1)
    ∷ (0x44, 0, 1)
    ∷ (0x45, 0, 1)
    ∷ (0x46, 0, 1)
    ∷ (0x47, 0, 1)
    ∷ (0x48, 0, 1)
    ∷ (0x50, 1, 0)
    ∷ (0x51, 1, 1)
    ∷ (0x52, 2, 0)
    ∷ (0x53, 2, 0)
    ∷ (0x54, 1, 1)
    ∷ (0x55, 2, 0)
    ∷ (0x56, 1, 0)
    ∷ (0x57, 2, 0)
    ∷ (0x58, 0, 1)
    ∷ (0x59, 0, 1)
    ∷ (0x5a, 0, 1)
    ∷ (0x5b, 0, 0)
    ∷ (0x60, 0, 1)
    ∷ (0x61, 0, 1)
    ∷ (0x62, 0, 1)
    ∷ (0x63, 0, 1)
    ∷ (0x64, 0, 1)
    ∷ (0x65, 0, 1)
    ∷ (0x66, 0, 1)
    ∷ (0x67, 0, 1)
    ∷ (0x68, 0, 1)
    ∷ (0x69, 0, 1)
    ∷ (0x6a, 0, 1)
    ∷ (0x6b, 0, 1)
    ∷ (0x6c, 0, 1)
    ∷ (0x6d, 0, 1)
    ∷ (0x6e, 0, 1)
    ∷ (0x6f, 0, 1)
    ∷ (0x70, 0, 1)
    ∷ (0x71, 0, 1)
    ∷ (0x72, 0, 1)
    ∷ (0x73, 0, 1)
    ∷ (0x74, 0, 1)
    ∷ (0x75, 0, 1)
    ∷ (0x76, 0, 1)
    ∷ (0x77, 0, 1)
    ∷ (0x78, 0, 1)
    ∷ (0x79, 0, 1)
    ∷ (0x7a, 0, 1)
    ∷ (0x7b, 0, 1)
    ∷ (0x7c, 0, 1)
    ∷ (0x7d, 0, 1)
    ∷ (0x7e, 0, 1)
    ∷ (0x7f, 0, 1)
    ∷ (0x80, 1, 2)
    ∷ (0x81, 2, 3)
    ∷ (0x82, 3, 4)
    ∷ (0x83, 4, 5)
    ∷ (0x84, 5, 6)
    ∷ (0x85, 6, 7)
    ∷ (0x86, 7, 8)
    ∷ (0x87, 8, 9)
    ∷ (0x88, 9, 10)
    ∷ (0x89, 10, 11)
    ∷ (0x8a, 11, 12)
    ∷ (0x8b, 12, 13)
    ∷ (0x8c, 13, 14)
    ∷ (0x8d, 14, 15)
    ∷ (0x8e, 15, 16)
    ∷ (0x8f, 16, 17)
    ∷ (0x90, 2, 2)
    ∷ (0x91, 3, 3)
    ∷ (0x92, 4, 4)
    ∷ (0x93, 5, 5)
    ∷ (0x94, 6, 6)
    ∷ (0x95, 7, 7)
    ∷ (0x96, 8, 8)
    ∷ (0x97, 9, 9)
    ∷ (0x98, 10, 10)
    ∷ (0x99, 11, 11)
    ∷ (0x9a, 12, 12)
    ∷ (0x9b, 13, 13)
    ∷ (0x9c, 14, 14)
    ∷ (0x9d, 15, 15)
    ∷ (0x9e, 16, 16)
    ∷ (0x9f, 17, 17)
    ∷ (0xa0, 2, 0)
    ∷ (0xa1, 3, 0)
    ∷ (0xa2, 4, 0)
    ∷ (0xa3, 5, 0)
    ∷ (0xa4, 6, 0)
    ∷ (0xf0, 3, 1)
    ∷ (0xf1, 7, 1)
    ∷ (0xf2, 7, 1)
    ∷ (0xf3, 2, 0)
    ∷ (0xf4, 6, 1)
    ∷ (0xf5, 4, 1)
    ∷ (0xfa, 6, 1)
    ∷ (0xfd, 2, 0)
    ∷ (0xfe, 0, 0)
    ∷ (0xff, 1, 0)
    ∷ []

-- `std::map::operator[]` makes a missing entry, and its two counts are 0.
find : ℕ → List (ℕ × ℕ × ℕ) → ℕ × ℕ
find op [] = (0, 0)
find op ((k, taken, left) ∷ m) = if op == k then (taken, left) else find op m

-- `std::get<1>(InstrMap[op])`
unfoldable pub stack_out : ℕ → ℕ
unfolding find
stack_out op = (find op instr_map).0

-- `std::get<2>(InstrMap[op])`
unfoldable pub stack_in : ℕ → ℕ
unfolding find
stack_in op = (find op instr_map).1

abbrev Small : ℕ × ℕ × ℕ → Type 0
Small (op, taken, left) = (taken ≤ 17) × (left ≤ 17)

find-Small :
    (op : ℕ) (m : List (ℕ × ℕ × ℕ)) → All Small m → ((find op m).0 ≤ 17) × ((find op m).1 ≤ 17)
unfolding find
find-Small op [] h = omega arith
find-Small op ((k, taken, left) ∷ m) h = ground (arith, find-Small op m h.1)

-- No opcode takes more than 17 items or leaves more.
pub arity_bounds : (op : ℕ) → (stack_out op ≤ 17) × (stack_in op ≤ 17)
unfolding stack_out stack_in
arity_bounds op = find-Small op instr_map (omega arith)
