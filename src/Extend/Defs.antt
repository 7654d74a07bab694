-- ===== src/Extend/Defs.antt =====
-- The instructions that the case SIGNEXTEND emits, each with the value that it has.
use Prim.Native.Nat.{bit_and, bit_or, bit_xor}
use evmbt.Prelude.{ℕ, List, ◌-◌, ◌/◌, ◌%◌, ◌^◌, leb, ◌==◌, if◌then◌else◌}
use evmbt.Words.{add_word, sub_word, mul_word, shl_word}
use evmbt.Stack.Registers.{push, pop}

-- `bitpos`, of 64 bits.
unfoldable pub bit_position : ℕ → ℕ
bit_position idx = let k32 = idx % 2 ^ 5 in let k32x8 = mul_word 64 k32 8 in add_word 64 k32x8 7

-- `result`, of the words that are popped.
unfoldable pub signextend_result : ℕ → ℕ → ℕ
unfolding bit_position
signextend_result idx word =
    let bitpos = bit_position idx in
    let bitval = word / 2 ^ bitpos in
    let bittest = bitval % 2 in
    let mask = sub_word 256 (shl_word 256 1 bitpos) 1 in
    let negmask = bit_xor mask (2 ^ 256 - 1) in
    let val1 = bit_or word negmask in
    let val0 = bit_and word mask in
    if leb idx 30 then (if bittest == 1 then val1 else val0) else word

-- The case on the stack; an empty one gives 0.
unfoldable pub compile_signextend : List ℕ → List ℕ
unfolding signextend_result push pop
compile_signextend stack =
    let (idx, stack1) = pop 0 stack in
    let (word, stack2) = pop 0 stack1 in push (signextend_result idx word) stack2
