-- ===== src/Effects/Stacks.antt =====
-- What a case leaves of the stack, and what it puts on it.
use evmbt.Prelude.{
  ℕ, zero, suc, ◌^◌, ◌<◌, ◌≡◌, refl, List, [], ◌∷◌, ◌++◌, map, length, All, Option, none, some,
  arith,
}
use evmbt.Stack.Defs.{Value, int256}
use evmbt.Stack.Registers.{pop}
use evmbt.Environment.Mirror.{mirrored-lt}
use evmbt.Instruction.Table.{stack_out, stack_in}
use evmbt.Effects.Bytes.{swapped}
use evmbt.Effects.Monad.{State}
use evmbt.Effects.Dispatch.{Effect, Control, effect_opcode, compile_effect}
use evmbt.Effects.Dispatch

-- The stack below its `n` top items, and the item there; an empty stack gives 0.
unfoldable pub rest : ℕ → List Value → List Value
unfolding pop
rest zero stack = stack
rest (suc n) stack = (pop (int256 0) (rest n stack)).1

unfoldable pub item : ℕ → List Value → Value
unfolding rest pop
item n stack = (pop (int256 0) (rest n stack)).0

-- Every value has 256 bits.
abbrev pub IsWide : List Value → Type 0
IsWide stack = All (λ (v : Value). v.width ≡ 256) stack

pop-IsWide :
    (stack : List Value)
    → IsWide stack
    → ((pop (int256 0) stack).0.width ≡ 256) × IsWide (pop (int256 0) stack).1
unfolding pop
pop-IsWide [] h = (refl, tt)
pop-IsWide (v ∷ stack) h = (h.0, h.1)

rest-IsWide : (n : ℕ) (stack : List Value) → IsWide stack → IsWide (rest n stack)
unfolding rest
rest-IsWide zero stack h = h
rest-IsWide (suc n) stack h = (pop-IsWide (rest n stack) (rest-IsWide n stack h)).1

pub item_width : (n : ℕ) (stack : List Value) → IsWide stack → (item n stack).width ≡ 256
unfolding item
item_width n stack h = (pop-IsWide (rest n stack) (rest-IsWide n stack h)).0

pub swapped-lt : (n : ℕ) → swapped 32 n < 2 ^ 256
unfolding swapped
swapped-lt n = omega (arith, mirrored-lt 31 32 n (omega arith))

-- The widths of what a case pushes.
abbrev pub pushed_widths : Effect → List ℕ
pushed_widths Dispatch.sha3_effect = 256 ∷ []
pushed_widths Dispatch.balance_effect = 128 ∷ []
pushed_widths Dispatch.calldataload_effect = 256 ∷ []
pushed_widths Dispatch.calldatacopy_effect = []
pushed_widths Dispatch.codecopy_effect = []
pushed_widths Dispatch.extcodesize_effect = 32 ∷ []
pushed_widths Dispatch.extcodecopy_effect = []
pushed_widths Dispatch.returndatacopy_effect = []
pushed_widths Dispatch.extcodehash_effect = 32 ∷ []
pushed_widths Dispatch.blockhash_effect = 256 ∷ []
pushed_widths Dispatch.mload_effect = 256 ∷ []
pushed_widths Dispatch.mstore_effect = []
pushed_widths (Dispatch.mstore8_effect constant) = []
pushed_widths Dispatch.sload_effect = 256 ∷ []
pushed_widths Dispatch.sstore_effect = []
pushed_widths Dispatch.msize_effect = 256 ∷ []
pushed_widths Dispatch.create_effect = 256 ∷ []
pushed_widths Dispatch.call_effect = 256 ∷ []
pushed_widths Dispatch.callcode_effect = 256 ∷ []
pushed_widths Dispatch.delegatecall_effect = 256 ∷ []
pushed_widths Dispatch.create2_effect = 256 ∷ []
pushed_widths Dispatch.staticcall_effect = 256 ∷ []
pushed_widths Dispatch.return_effect = []
pushed_widths Dispatch.revert_effect = []
pushed_widths Dispatch.suicide_effect = []
pushed_widths Dispatch.stop_effect = []
pushed_widths (Dispatch.log_effect t) = []
pushed_widths Dispatch.invalid_effect = []

abbrev pub Fits : Value → Type 0
Fits v = v.word < 2 ^ v.width

-- The stack behind an effect: the items that the table counts are gone, those below are as they
-- were, and on the top are as many as it counts, of the widths above, each of which fits.
abbrev pub Leaves : Effect → List Value → List Value → Type 0
Leaves e before after =
    (pushed : List Value) × (after ≡ pushed ++ rest (stack_out (effect_opcode e)) before)
    × (map (λ (v : Value). v.width) pushed ≡ pushed_widths e)
    × (length pushed ≡ stack_in (effect_opcode e))
    × All Fits pushed

-- A case that is built, and what `P` says of the state behind it.
abbrev pub Gives : {H A : Type 0} → (State H → Type 0) → Option (A × State H) → Type 0
Gives P none = ⊥
Gives P (some (a, s)) = P s
