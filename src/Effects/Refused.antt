-- ===== src/Effects/Refused.antt =====
-- Operands that are narrower than a case takes them to be.
use evmbt.Prelude.{ℕ, ◌≡◌, refl, List, ◌∷◌, none}
use evmbt.Stack.Defs.{Value}
use evmbt.Stack.Registers.{push, pop}
use evmbt.Effects.Bytes.{word256}
use evmbt.Effects.Monad.{State, World, Answer, ◌>>◌, pop_value, push_value}
use evmbt.Effects.Cases.{compile_sload, compile_extcodesize, compile_extcodehash, compile_blockhash}
use evmbt.Effects.Calls.{CallKind, StatelessKind, compile_call, compile_stateless}

-- The 32 bits that EXTCODESIZE and EXTCODEHASH push are refused as the operand of a following
-- SLOAD or BLOCKHASH and as the gas of a following call.
pub extcodesize_refused :
    {H : Type 0} (answer : Answer H) (address : ℕ) (rest : List Value) (w : World H)
    (kind : CallKind) (other : StatelessKind)
    → let s : State H = record { stack = word256 address ∷ rest; world = w } in
      ((compile_extcodesize answer >> compile_sload answer) s ≡ none)
      × ((compile_extcodehash answer >> compile_sload answer) s ≡ none)
      × ((compile_extcodesize answer >> compile_blockhash answer) s ≡ none)
      × ((compile_extcodesize answer >> compile_call answer kind) s ≡ none)
      × ((compile_extcodesize answer >> compile_stateless answer other) s ≡ none)
unfolding compile_extcodesize compile_extcodehash compile_sload compile_blockhash compile_call
    compile_stateless push pop pop_value push_value
extcodesize_refused answer address rest w kind other = (refl, refl, refl, refl, refl)
