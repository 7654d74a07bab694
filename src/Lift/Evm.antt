-- ===== src/Lift/Evm.antt =====
-- The EVM's value opcodes, as the yellow paper has them, on a stack of words.
use Prim.Native.Nat.{bit_and, bit_or, bit_xor}
use evmbt.Prelude.{
  ℕ, ◌+◌, ◌-◌, ◌*◌, ◌/◌, ◌%◌, ◌^◌, ◌<◌, ◌≢◌, ◌≡◌, List, [], ◌∷◌, Option, none, some, length, get_or,
  set, leb, ltb, ◌==◌, if◌then◌else◌,
}
use evmbt.Lift.Machine.{bit, is_negative, signed_lt, signed_div, signed_rem, signed_shift}
use evmbt.Lift.Interface.{SignedDivisor}
use evmbt.Lift.Defs.{
  ValueInstruction, add_ins, mul_ins, sub_ins, div_ins, sdiv_ins, mod_ins, smod_ins, addmod_ins,
  mulmod_ins, lt_ins, gt_ins, slt_ins, sgt_ins, eq_ins, iszero_ins, and_ins, or_ins, xor_ins,
  not_ins, shl_ins, shr_ins, sar_ins, pop_ins, push_ins, dup_ins, swap_ins,
}

-- An instruction on the topmost items; `none` is a stack underflow.
abbrev pub one_item : (ℕ → ℕ) → List ℕ → Option (List ℕ)
one_item f [] = none
one_item f (a ∷ ws) = some (f a ∷ ws)

abbrev pub two_items : (ℕ → ℕ → ℕ) → List ℕ → Option (List ℕ)
two_items f [] = none
two_items f (a ∷ []) = none
two_items f (a ∷ b ∷ ws) = some (f a b ∷ ws)

abbrev pub three_items : (ℕ → ℕ → ℕ → ℕ) → List ℕ → Option (List ℕ)
three_items f [] = none
three_items f (a ∷ []) = none
three_items f (a ∷ b ∷ []) = none
three_items f (a ∷ b ∷ c ∷ ws) = some (f a b c ∷ ws)

-- Division by 0 gives 0.
abbrev pub or_zero : ℕ → ℕ → ℕ
or_zero n result = if n == 0 then 0 else result

abbrev pub evm_shift : ℕ → ℕ → ℕ → ℕ
evm_shift shift past result = if leb 256 shift then past else result

unfoldable pub evm_value : ValueInstruction → List ℕ → Option (List ℕ)
evm_value add_ins ws = two_items (λ a b. (a + b) % 2 ^ 256) ws
evm_value mul_ins ws = two_items (λ a b. (a * b) % 2 ^ 256) ws
evm_value sub_ins ws = two_items (λ a b. (a + 2 ^ 256 - b) % 2 ^ 256) ws
evm_value div_ins ws = two_items (λ a b. or_zero b (a / b)) ws
evm_value sdiv_ins ws = two_items (λ a b. or_zero b (signed_div 256 a b)) ws
evm_value mod_ins ws = two_items (λ a b. or_zero b (a % b)) ws
evm_value smod_ins ws = two_items (λ a b. or_zero b (signed_rem 256 a b)) ws
evm_value addmod_ins ws = three_items (λ a b m. or_zero m ((a + b) % m)) ws
evm_value mulmod_ins ws = three_items (λ a b m. or_zero m ((a * b) % m)) ws
evm_value lt_ins ws = two_items (λ a b. bit (ltb a b)) ws
evm_value gt_ins ws = two_items (λ a b. bit (ltb b a)) ws
evm_value slt_ins ws = two_items (λ a b. bit (signed_lt 256 a b)) ws
evm_value sgt_ins ws = two_items (λ a b. bit (signed_lt 256 b a)) ws
evm_value eq_ins ws = two_items (λ a b. bit (a == b)) ws
evm_value iszero_ins ws = one_item (λ a. bit (a == 0)) ws
evm_value and_ins ws = two_items bit_and ws
evm_value or_ins ws = two_items bit_or ws
evm_value xor_ins ws = two_items bit_xor ws
evm_value not_ins ws = one_item (λ a. 2 ^ 256 - 1 - a) ws
evm_value shl_ins ws = two_items (λ s a. evm_shift s 0 ((a * 2 ^ s) % 2 ^ 256)) ws
evm_value shr_ins ws = two_items (λ s a. evm_shift s 0 (a / 2 ^ s)) ws
evm_value sar_ins ws =
    two_items
      (λ s a. evm_shift s (if is_negative 256 a then 2 ^ 256 - 1 else 0) (signed_shift 256 a s)) ws
evm_value pop_ins [] = none
evm_value pop_ins (a ∷ ws) = some ws
evm_value (push_ins value) ws = some (value ∷ ws)
evm_value (dup_ins index) ws = if ltb index (length ws) then some (get_or ws index 0 ∷ ws) else none
evm_value (swap_ins index) ws =
    if ltb (index + 1) (length ws)
    then some (set (set ws (index + 1) (get_or ws 0 0)) 0 (get_or ws (index + 1) 0))
    else none

abbrev pub TopTwo : (ℕ → ℕ → Type 0) → List ℕ → Type 0
TopTwo P [] = Unit
TopTwo P (a ∷ []) = Unit
TopTwo P (a ∷ b ∷ ws) = P a b

abbrev pub TopThree : (ℕ → ℕ → ℕ → Type 0) → List ℕ → Type 0
TopThree P [] = Unit
TopThree P (a ∷ []) = Unit
TopThree P (a ∷ b ∷ []) = Unit
TopThree P (a ∷ b ∷ c ∷ ws) = P a b c

-- Where the instructions that the compiler builds are defined: no division by 0, no overflow of a
-- signed quotient, and no shift by the width or more. A pushed number is a word.
abbrev pub Defined : ValueInstruction → List ℕ → Type 0
Defined div_ins ws = TopTwo (λ a b. b ≢ 0) ws
Defined sdiv_ins ws = TopTwo (SignedDivisor 256) ws
Defined mod_ins ws = TopTwo (λ a b. b ≢ 0) ws
Defined smod_ins ws = TopTwo (SignedDivisor 256) ws
Defined addmod_ins ws = TopThree (λ a b m. m ≢ 0) ws
Defined mulmod_ins ws = TopThree (λ a b m. m ≢ 0) ws
Defined shl_ins ws = TopTwo (λ s a. s < 256) ws
Defined shr_ins ws = TopTwo (λ s a. s < 256) ws
Defined sar_ins ws = TopTwo (λ s a. s < 256) ws
Defined (push_ins value) ws = value < 2 ^ 256
Defined ins ws = Unit

-- A run of instructions, each of them defined.
pub data Executes : List ValueInstruction → List ℕ → List ℕ → Type 0 where
  finished : {ws : List ℕ} → Executes [] ws ws
  executes :
      {ins : ValueInstruction} {rest : List ValueInstruction} {ws ws'' : List ℕ} (ws' : List ℕ)
      → evm_value ins ws ≡ some ws'
      → Defined ins ws
      → Executes rest ws' ws''
      → Executes (ins ∷ rest) ws ws''
