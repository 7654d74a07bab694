-- ===== src/Effects/Typed/Ends.antt =====
-- The cases that create, call, log and end.
use evmbt.Prelude.{ℕ, refl, [], ◌∷◌, ◌==◌, Bool-cases, inl, inr, not, ◌&&◌}
use evmbt.Stack.Registers.{push}
use evmbt.Instruction.Table.{stack_out, stack_in}
use evmbt.Effects.Monad.{State, Answer, pop_value, push_value}
use evmbt.Effects.Calls.{
  Deployer, compile_create, compile_create2, compile_call, compile_stateless, compile_return,
  compile_revert, compile_suicide, compile_log, pop_topics,
}
use evmbt.Effects.Dispatch.{
  Effect, compile_effect, no_topic, one_topic, two_topics, three_topics, four_topics, Topics,
}
use evmbt.Effects.Dispatch
use evmbt.Effects.Stacks.{rest, item, IsWide, item_width, Gives}
use evmbt.Effects.Typed.Fits.{Typed, address-Fits, success-Fits}

module _ {H : Type 0} (answer : Answer H) (code_base : ℕ) (deployer : Deployer) (pc : ℕ)
    (s : State H) (h : IsWide s.stack) where
  pub create-Typed : Typed answer code_base deployer pc s h Dispatch.create_effect
  unfolding compile_effect compile_create push pop_value push_value rest item stack_out stack_in
  create-Typed =
      rw (Gives, item_width 0 s.stack h, item_width 2 s.stack h)
        (_ ∷ [], refl, refl, refl, (address-Fits _, tt))

  pub call-Typed : Typed answer code_base deployer pc s h Dispatch.call_effect
  unfolding compile_effect compile_call push pop_value push_value rest item stack_out stack_in
  call-Typed =
      rw
        (
          Gives,
          item_width 0 s.stack h,
          item_width 1 s.stack h,
          item_width 2 s.stack h,
          item_width 4 s.stack h,
          item_width 6 s.stack h,
        )
        (_ ∷ [], refl, refl, refl, (success-Fits _, tt))

  pub callcode-Typed : Typed answer code_base deployer pc s h Dispatch.callcode_effect
  unfolding compile_effect compile_call push pop_value push_value rest item stack_out stack_in
  callcode-Typed =
      rw
        (
          Gives,
          item_width 0 s.stack h,
          item_width 1 s.stack h,
          item_width 2 s.stack h,
          item_width 4 s.stack h,
          item_width 6 s.stack h,
        )
        (_ ∷ [], refl, refl, refl, (success-Fits _, tt))

  pub delegatecall-Typed : Typed answer code_base deployer pc s h Dispatch.delegatecall_effect
  unfolding compile_effect compile_stateless push pop_value push_value rest item stack_out stack_in
  delegatecall-Typed =
      rw
        (
          Gives,
          item_width 0 s.stack h,
          item_width 1 s.stack h,
          item_width 3 s.stack h,
          item_width 5 s.stack h,
        )
        (_ ∷ [], refl, refl, refl, (success-Fits _, tt))

  pub create2-Typed : Typed answer code_base deployer pc s h Dispatch.create2_effect
  unfolding compile_effect compile_create2 push pop_value push_value rest item stack_out stack_in
  create2-Typed =
      rw (Gives, item_width 0 s.stack h, item_width 2 s.stack h, item_width 3 s.stack h)
        (_ ∷ [], refl, refl, refl, (address-Fits _, tt))

  pub staticcall-Typed : Typed answer code_base deployer pc s h Dispatch.staticcall_effect
  unfolding compile_effect compile_stateless push pop_value push_value rest item stack_out stack_in
  staticcall-Typed =
      rw
        (
          Gives,
          item_width 0 s.stack h,
          item_width 1 s.stack h,
          item_width 3 s.stack h,
          item_width 5 s.stack h,
        )
        (_ ∷ [], refl, refl, refl, (success-Fits _, tt))

  pub return-Typed : Typed answer code_base deployer pc s h Dispatch.return_effect
  unfolding compile_effect compile_return push pop_value push_value rest item stack_out stack_in
  return-Typed =
      elim (Bool-cases
        (not (deployer.ret_pc == 0) && not (deployer.runtime_size == 0) && pc == deployer.ret_pc)) [
          | inl e ↦ rw (Gives, item_width 1 s.stack h, e) ([], refl, refl, refl, tt)
          | inr e ↦ rw (Gives, item_width 1 s.stack h, e) ([], refl, refl, refl, tt)
        ]

  pub revert-Typed : Typed answer code_base deployer pc s h Dispatch.revert_effect
  unfolding compile_effect compile_revert push pop_value push_value rest item stack_out stack_in
  revert-Typed = rw (Gives, item_width 1 s.stack h) ([], refl, refl, refl, tt)

  pub suicide-Typed : Typed answer code_base deployer pc s h Dispatch.suicide_effect
  unfolding compile_effect compile_suicide push pop_value push_value rest item stack_out stack_in
  suicide-Typed = ([], refl, refl, refl, tt)

  pub stop-Typed : Typed answer code_base deployer pc s h Dispatch.stop_effect
  unfolding compile_effect push pop_value push_value rest item stack_out stack_in
  stop-Typed = ([], refl, refl, refl, tt)

  pub invalid-Typed : Typed answer code_base deployer pc s h Dispatch.invalid_effect
  unfolding compile_effect push pop_value push_value rest item stack_out stack_in
  invalid-Typed = ([], refl, refl, refl, tt)

  pub log-Typed : (t : Topics) → Typed answer code_base deployer pc s h (Dispatch.log_effect t)
  unfolding compile_effect compile_log pop_topics pop_value rest item stack_out stack_in
  log-Typed no_topic = rw (Gives, item_width 1 s.stack h) ([], refl, refl, refl, tt)
  log-Typed one_topic = rw (Gives, item_width 1 s.stack h) ([], refl, refl, refl, tt)
  log-Typed two_topics = rw (Gives, item_width 1 s.stack h) ([], refl, refl, refl, tt)
  log-Typed three_topics = rw (Gives, item_width 1 s.stack h) ([], refl, refl, refl, tt)
  log-Typed four_topics = rw (Gives, item_width 1 s.stack h) ([], refl, refl, refl, tt)
