-- ===== src/Effects/Typed.antt =====
-- The cases on a stack of words: each is built, and leaves the stack that the table says.
use native.Mathlib.Nat.{mod-lt}
use evmbt.Prelude.{
  ◌⊎◌, ◌≡◌, none, true, false, ℕ, ◌+◌, ◌%◌, ◌^◌, ◌<◌, refl, [], ◌∷◌, arith, ◌==◌, Bool-cases, inl,
  inr, not, ◌&&◌,
}
use evmbt.Words.{one-le_pow}
use evmbt.Stack.Registers.{push}
use evmbt.Instruction.Table.{stack_out, stack_in}
use evmbt.Memcpy.Total.{memcpy_total}
use evmbt.Effects.Bytes.{loaded, pointer}
use evmbt.Effects.Monad.{State, Answer, pop_value, push_value}
use evmbt.Effects.Calls.{
  Deployer, success, compile_create, compile_create2, compile_call, compile_stateless,
  compile_return, compile_revert, compile_suicide, compile_log, pop_topics,
}
use evmbt.Effects.Cases.{
  compile_mload, compile_mstore, compile_mstore8, compile_msize, compile_codecopy, keccak256,
  compile_sha3, compile_sload, compile_sstore, compile_blockhash, compile_balance,
  compile_extcodesize, compile_extcodehash, compile_calldatacopy, compile_returndatacopy,
  compile_extcodecopy, compile_calldataload,
}
use evmbt.Effects.Dispatch.{
  Effect, compile_effect, no_topic, one_topic, two_topics, three_topics, four_topics, Topics,
}
use evmbt.Effects.Dispatch
use evmbt.Effects.Stacks.{rest, item, IsWide, item_width, swapped-lt, Leaves, Gives}
use evmbt.Effects.Typed.Data.{
  sha3-Typed, balance-Typed, calldataload-Typed, calldatacopy-Typed, extcodesize-Typed,
  extcodecopy-Typed, returndatacopy-Typed, extcodehash-Typed, blockhash-Typed, mload-Typed,
  mstore-Typed, mstore8-Typed, mstore8_constant, sload-Typed, sstore-Typed, msize-Typed,
  codecopy-Typed,
}
use evmbt.Effects.Typed.Ends.{
  create-Typed, call-Typed, callcode-Typed, delegatecall-Typed, create2-Typed, staticcall-Typed,
  return-Typed, revert-Typed, suicide-Typed, stop-Typed, invalid-Typed, log-Typed,
}
mod Fits
mod Data
mod Ends

-- On a stack of words every case but MSTORE8 of a constant is built, takes as many items as the table
-- counts, leaves the items below them, and puts as many on the top, of the widths listed, each of
-- which fits its own. MSTORE8 of a constant stops at an assertion.
pub compile_effect-Leaves :
    {H : Type 0} (answer : Answer H) (code_base : ℕ) (deployer : Deployer) (pc : ℕ) (e : Effect)
    (s : State H)
    → IsWide s.stack
    → ((e ≡ Dispatch.mstore8_effect true)
        × (compile_effect answer code_base deployer pc e s ≡ none))
      ⊎ Gives
          (λ (s' : State H). Leaves e s.stack s'.stack)
          (compile_effect answer code_base deployer pc e s)
compile_effect-Leaves a b d pc Dispatch.sha3_effect s h = inr (sha3-Typed a b d pc s h)
compile_effect-Leaves a b d pc Dispatch.balance_effect s h = inr (balance-Typed a b d pc s h)
compile_effect-Leaves a b d pc Dispatch.calldataload_effect s h =
    inr (calldataload-Typed a b d pc s h)
compile_effect-Leaves a b d pc Dispatch.calldatacopy_effect s h =
    inr (calldatacopy-Typed a b d pc s h)
compile_effect-Leaves a b d pc Dispatch.extcodesize_effect s h =
    inr (extcodesize-Typed a b d pc s h)
compile_effect-Leaves a b d pc Dispatch.extcodecopy_effect s h =
    inr (extcodecopy-Typed a b d pc s h)
compile_effect-Leaves a b d pc Dispatch.returndatacopy_effect s h =
    inr (returndatacopy-Typed a b d pc s h)
compile_effect-Leaves a b d pc Dispatch.extcodehash_effect s h =
    inr (extcodehash-Typed a b d pc s h)
compile_effect-Leaves a b d pc Dispatch.blockhash_effect s h = inr (blockhash-Typed a b d pc s h)
compile_effect-Leaves a b d pc Dispatch.mload_effect s h = inr (mload-Typed a b d pc s h)
compile_effect-Leaves a b d pc Dispatch.mstore_effect s h = inr (mstore-Typed a b d pc s h)
compile_effect-Leaves a b d pc (Dispatch.mstore8_effect true) s h =
    inl (refl, mstore8_constant a b d pc s h)
compile_effect-Leaves a b d pc (Dispatch.mstore8_effect false) s h =
    inr (mstore8-Typed a b d pc s h)
compile_effect-Leaves a b d pc Dispatch.sload_effect s h = inr (sload-Typed a b d pc s h)
compile_effect-Leaves a b d pc Dispatch.sstore_effect s h = inr (sstore-Typed a b d pc s h)
compile_effect-Leaves a b d pc Dispatch.msize_effect s h = inr (msize-Typed a b d pc s h)
compile_effect-Leaves a b d pc Dispatch.create_effect s h = inr (create-Typed a b d pc s h)
compile_effect-Leaves a b d pc Dispatch.call_effect s h = inr (call-Typed a b d pc s h)
compile_effect-Leaves a b d pc Dispatch.callcode_effect s h = inr (callcode-Typed a b d pc s h)
compile_effect-Leaves a b d pc Dispatch.delegatecall_effect s h =
    inr (delegatecall-Typed a b d pc s h)
compile_effect-Leaves a b d pc Dispatch.create2_effect s h = inr (create2-Typed a b d pc s h)
compile_effect-Leaves a b d pc Dispatch.staticcall_effect s h = inr (staticcall-Typed a b d pc s h)
compile_effect-Leaves a b d pc Dispatch.return_effect s h = inr (return-Typed a b d pc s h)
compile_effect-Leaves a b d pc Dispatch.revert_effect s h = inr (revert-Typed a b d pc s h)
compile_effect-Leaves a b d pc Dispatch.suicide_effect s h = inr (suicide-Typed a b d pc s h)
compile_effect-Leaves a b d pc Dispatch.stop_effect s h = inr (stop-Typed a b d pc s h)
compile_effect-Leaves a b d pc Dispatch.invalid_effect s h = inr (invalid-Typed a b d pc s h)
compile_effect-Leaves a b d pc Dispatch.codecopy_effect s h = inr (codecopy-Typed a b d pc s h)
compile_effect-Leaves a b d pc (Dispatch.log_effect t) s h = inr (log-Typed a b d pc s h t)
