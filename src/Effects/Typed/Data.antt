-- ===== src/Effects/Typed/Data.antt =====
-- The cases of memory, storage, accounts and data.
use native.Mathlib.Nat.{mod-lt}
use evmbt.Prelude.{◌≡◌, none, true, false, ℕ, ◌+◌, ◌%◌, ◌^◌, refl, [], ◌∷◌}
use evmbt.Words.{one-le_pow}
use evmbt.Stack.Registers.{push}
use evmbt.Instruction.Table.{stack_out, stack_in}
use evmbt.Memcpy.Total.{memcpy_total}
use evmbt.Effects.Bytes.{pointer}
use evmbt.Effects.Monad.{State, Answer, pop_value, push_value, check, ◌>>◌, ◌>>=◌}
use evmbt.Effects.Calls.{Deployer}
use evmbt.Effects.Cases.{
  compile_mload, compile_mstore, compile_mstore8, compile_msize, compile_codecopy, keccak256,
  compile_sha3, compile_sload, compile_sstore, compile_blockhash, compile_balance,
  compile_extcodesize, compile_extcodehash, compile_calldatacopy, compile_returndatacopy,
  compile_extcodecopy, compile_calldataload,
}
use evmbt.Effects.Dispatch.{
  Effect, compile_effect, no_topic, one_topic, two_topics, three_topics, four_topics, Topics,
}
use evmbt.Effects.Dispatch
use evmbt.Effects.Stacks.{rest, item, IsWide, item_width, swapped-lt, Gives}
use evmbt.Effects.Typed.Fits.{Typed, loaded-Fits}

module _ {H : Type 0} (answer : Answer H) (code_base : ℕ) (deployer : Deployer) (pc : ℕ)
    (s : State H) (h : IsWide s.stack) where
  pub sha3-Typed : Typed answer code_base deployer pc s h Dispatch.sha3_effect
  unfolding compile_effect compile_sha3 keccak256 push pop_value push_value rest item stack_out
      stack_in
  sha3-Typed = rw (Gives, item_width 1 s.stack h) (_ ∷ [], refl, refl, refl, (swapped-lt _, tt))

  pub balance-Typed : Typed answer code_base deployer pc s h Dispatch.balance_effect
  unfolding compile_effect compile_balance push pop_value push_value rest item stack_out stack_in
  balance-Typed =
      rw (Gives, item_width 0 s.stack h) (_ ∷ [], refl, refl, refl, (loaded-Fits 128 _, tt))

  pub calldataload-Typed : Typed answer code_base deployer pc s h Dispatch.calldataload_effect
  unfolding compile_effect compile_calldataload push pop_value push_value rest item stack_out
      stack_in
  calldataload-Typed =
      rw (Gives, item_width 0 s.stack h) (_ ∷ [], refl, refl, refl, (swapped-lt _, tt))

  pub calldatacopy-Typed : Typed answer code_base deployer pc s h Dispatch.calldatacopy_effect
  unfolding compile_effect compile_calldatacopy push pop_value push_value rest item stack_out
      stack_in
  calldatacopy-Typed =
      rw (Gives, item_width 1 s.stack h, item_width 2 s.stack h) ([], refl, refl, refl, tt)

  pub extcodesize-Typed : Typed answer code_base deployer pc s h Dispatch.extcodesize_effect
  unfolding compile_effect compile_extcodesize push pop_value push_value rest item stack_out
      stack_in
  extcodesize-Typed =
      rw (Gives, item_width 0 s.stack h) (_ ∷ [], refl, refl, refl, (loaded-Fits 32 _, tt))

  pub extcodecopy-Typed : Typed answer code_base deployer pc s h Dispatch.extcodecopy_effect
  unfolding compile_effect compile_extcodecopy push pop_value push_value rest item stack_out
      stack_in
  extcodecopy-Typed =
      rw (Gives, item_width 0 s.stack h, item_width 2 s.stack h, item_width 3 s.stack h)
        ([], refl, refl, refl, tt)

  pub returndatacopy-Typed : Typed answer code_base deployer pc s h Dispatch.returndatacopy_effect
  unfolding compile_effect compile_returndatacopy push pop_value push_value rest item stack_out
      stack_in
  returndatacopy-Typed =
      rw (Gives, item_width 1 s.stack h, item_width 2 s.stack h) ([], refl, refl, refl, tt)

  pub extcodehash-Typed : Typed answer code_base deployer pc s h Dispatch.extcodehash_effect
  unfolding compile_effect compile_extcodehash push pop_value push_value rest item stack_out
      stack_in
  extcodehash-Typed =
      rw (Gives, item_width 0 s.stack h) (_ ∷ [], refl, refl, refl, (loaded-Fits 32 _, tt))

  pub blockhash-Typed : Typed answer code_base deployer pc s h Dispatch.blockhash_effect
  unfolding compile_effect compile_blockhash push pop_value push_value rest item stack_out stack_in
  blockhash-Typed =
      rw (Gives, item_width 0 s.stack h, item_width 0 s.stack h)
        (_ ∷ [], refl, refl, refl, (swapped-lt _, tt))

  pub mload-Typed : Typed answer code_base deployer pc s h Dispatch.mload_effect
  unfolding compile_effect compile_mload push pop_value push_value rest item stack_out stack_in
  mload-Typed = (_ ∷ [], refl, refl, refl, (swapped-lt _, tt))

  pub mstore-Typed : Typed answer code_base deployer pc s h Dispatch.mstore_effect
  unfolding compile_effect compile_mstore push pop_value push_value rest item stack_out stack_in
  mstore-Typed = rw (Gives, item_width 1 s.stack h) ([], refl, refl, refl, tt)

  pub mstore8-Typed : Typed answer code_base deployer pc s h (Dispatch.mstore8_effect false)
  unfolding compile_effect compile_mstore8 push pop_value push_value rest item stack_out stack_in
  mstore8-Typed = rw (Gives, item_width 1 s.stack h) ([], refl, refl, refl, tt)

  pub mstore8_constant :
      compile_effect answer code_base deployer pc (Dispatch.mstore8_effect true) s ≡ none
  unfolding compile_effect compile_mstore8 push pop_value push_value rest item
  mstore8_constant = rw (◌>>◌, ◌>>=◌, check, item_width 1 s.stack h) refl

  pub sload-Typed : Typed answer code_base deployer pc s h Dispatch.sload_effect
  unfolding compile_effect compile_sload push pop_value push_value rest item stack_out stack_in
  sload-Typed = rw (Gives, item_width 0 s.stack h) (_ ∷ [], refl, refl, refl, (swapped-lt _, tt))

  pub sstore-Typed : Typed answer code_base deployer pc s h Dispatch.sstore_effect
  unfolding compile_effect compile_sstore push pop_value push_value rest item stack_out stack_in
  sstore-Typed =
      rw (Gives, item_width 0 s.stack h, item_width 1 s.stack h) ([], refl, refl, refl, tt)

  pub msize-Typed : Typed answer code_base deployer pc s h Dispatch.msize_effect
  unfolding compile_effect compile_msize push pop_value push_value rest item stack_out stack_in
  msize-Typed = (_ ∷ [], refl, refl, refl, (loaded-Fits 256 _, tt))

  pub codecopy-Typed : Typed answer code_base deployer pc s h Dispatch.codecopy_effect
  unfolding compile_effect compile_codecopy pop_value rest item stack_out stack_in
  codecopy-Typed =
      let copy =
        memcpy_total (pointer (item 0 s.stack))
          ((code_base + (item 1 s.stack).word % 2 ^ 32) % 2 ^ 32) ((item 2 s.stack).word % 2 ^ 32)
          s.world.memory (mod-lt _ (one-le_pow 32)) in
      rw (Gives, item_width 1 s.stack h, item_width 2 s.stack h, copy.1) ([], refl, refl, refl, tt)
