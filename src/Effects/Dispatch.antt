-- ===== src/Effects/Dispatch.antt =====
-- The choice among the cases, by opcode.
use evmbt.Prelude.{Bool, ℕ, ◌+◌}
use evmbt.Effects.Monad.{Answer, Emit, ◌>>◌, pure}
use evmbt.Effects.Cases.{
  compile_mload, compile_mstore, compile_mstore8, compile_msize, compile_codecopy, compile_sha3,
  compile_sload, compile_sstore, compile_blockhash, compile_balance, compile_extcodesize,
  compile_extcodehash, compile_calldatacopy, compile_returndatacopy, compile_extcodecopy,
  compile_calldataload,
}
use evmbt.Effects.Calls.{
  Deployer, call_kind, call_code_kind, delegate_kind, static_kind, compile_create, compile_create2,
  compile_call, compile_stateless, compile_return, compile_revert, compile_suicide, compile_log,
}

-- Where the code goes on behind a case.
pub data Control : Type 0 where
  next_instruction : Control
  exit_block : Control
  unreachable : Control

-- The number of topics of a LOG instruction is from 0 to 4.
pub data Topics : Type 0 where
  no_topic : Topics
  one_topic : Topics
  two_topics : Topics
  three_topics : Topics
  four_topics : Topics

abbrev pub num_topics : Topics → ℕ
num_topics no_topic = 0
num_topics one_topic = 1
num_topics two_topics = 2
num_topics three_topics = 3
num_topics four_topics = 4

pub data Effect : Type 0 where
  sha3_effect : Effect
  balance_effect : Effect
  calldataload_effect : Effect
  calldatacopy_effect : Effect
  codecopy_effect : Effect
  extcodesize_effect : Effect
  extcodecopy_effect : Effect
  returndatacopy_effect : Effect
  extcodehash_effect : Effect
  blockhash_effect : Effect
  mload_effect : Effect
  mstore_effect : Effect
  -- The flag: the value to store is a `ConstantInt`.
  mstore8_effect : Bool → Effect
  sload_effect : Effect
  sstore_effect : Effect
  msize_effect : Effect
  create_effect : Effect
  call_effect : Effect
  callcode_effect : Effect
  delegatecall_effect : Effect
  create2_effect : Effect
  staticcall_effect : Effect
  return_effect : Effect
  revert_effect : Effect
  suicide_effect : Effect
  stop_effect : Effect
  log_effect : Topics → Effect
  -- every opcode that has no case
  invalid_effect : Effect

-- The opcode of an effect; 0xfe stands for those without a case.
abbrev pub effect_opcode : Effect → ℕ
effect_opcode sha3_effect = 0x20
effect_opcode balance_effect = 0x31
effect_opcode calldataload_effect = 0x35
effect_opcode calldatacopy_effect = 0x37
effect_opcode codecopy_effect = 0x39
effect_opcode extcodesize_effect = 0x3b
effect_opcode extcodecopy_effect = 0x3c
effect_opcode returndatacopy_effect = 0x3e
effect_opcode extcodehash_effect = 0x3f
effect_opcode blockhash_effect = 0x40
effect_opcode mload_effect = 0x51
effect_opcode mstore_effect = 0x52
effect_opcode (mstore8_effect constant) = 0x53
effect_opcode sload_effect = 0x54
effect_opcode sstore_effect = 0x55
effect_opcode msize_effect = 0x59
effect_opcode create_effect = 0xf0
effect_opcode call_effect = 0xf1
effect_opcode callcode_effect = 0xf2
effect_opcode delegatecall_effect = 0xf4
effect_opcode create2_effect = 0xf5
effect_opcode staticcall_effect = 0xfa
effect_opcode return_effect = 0xf3
effect_opcode revert_effect = 0xfd
effect_opcode suicide_effect = 0xff
effect_opcode stop_effect = 0x00
effect_opcode (log_effect t) = 0xa0 + num_topics t
effect_opcode invalid_effect = 0xfe

module _ {H : Type 0} (answer : Answer H) (code_base : ℕ) (deployer : Deployer) where
  -- A case that goes on to the next instruction, and one that ends with `CreateBr(m_exitBB)`.
  abbrev pub goes_on : Emit H (Unit {0}) → Emit H Control
  goes_on part = do part; pure next_instruction

  abbrev pub exits : Emit H (Unit {0}) → Emit H Control
  exits part = do part; pure exit_block

  -- The case of an opcode, at the instruction `pc`.
  unfoldable pub compile_effect : ℕ → Effect → Emit H Control
  unfolding compile_mload compile_mstore compile_mstore8 compile_msize compile_codecopy compile_sha3
      compile_sload compile_sstore compile_blockhash compile_balance compile_extcodesize
      compile_extcodehash compile_calldatacopy compile_returndatacopy compile_extcodecopy
      compile_calldataload compile_create compile_create2 compile_call compile_stateless
      compile_return compile_revert compile_suicide compile_log
  compile_effect pc sha3_effect = goes_on (compile_sha3 answer)
  compile_effect pc balance_effect = goes_on (compile_balance answer)
  compile_effect pc calldataload_effect = goes_on (compile_calldataload answer)
  compile_effect pc calldatacopy_effect = goes_on (compile_calldatacopy answer)
  compile_effect pc codecopy_effect = goes_on (compile_codecopy code_base)
  compile_effect pc extcodesize_effect = goes_on (compile_extcodesize answer)
  compile_effect pc extcodecopy_effect = goes_on (compile_extcodecopy answer)
  compile_effect pc returndatacopy_effect = goes_on (compile_returndatacopy answer)
  compile_effect pc extcodehash_effect = goes_on (compile_extcodehash answer)
  compile_effect pc blockhash_effect = goes_on (compile_blockhash answer)
  compile_effect pc mload_effect = goes_on (compile_mload)
  compile_effect pc mstore_effect = goes_on (compile_mstore)
  compile_effect pc (mstore8_effect constant) = goes_on (compile_mstore8 constant)
  compile_effect pc sload_effect = goes_on (compile_sload answer)
  compile_effect pc sstore_effect = goes_on (compile_sstore answer)
  compile_effect pc msize_effect = goes_on (compile_msize)
  compile_effect pc create_effect = goes_on (compile_create answer)
  compile_effect pc call_effect = goes_on (compile_call answer call_kind)
  compile_effect pc callcode_effect = goes_on (compile_call answer call_code_kind)
  compile_effect pc delegatecall_effect = goes_on (compile_stateless answer delegate_kind)
  compile_effect pc create2_effect = goes_on (compile_create2 answer)
  compile_effect pc staticcall_effect = goes_on (compile_stateless answer static_kind)
  compile_effect pc return_effect = exits (compile_return answer deployer pc)
  compile_effect pc revert_effect = exits (compile_revert answer)
  compile_effect pc suicide_effect = exits (compile_suicide answer)
  compile_effect pc stop_effect = pure exit_block
  compile_effect pc (log_effect t) = goes_on (compile_log answer (num_topics t))
  compile_effect pc invalid_effect = pure unreachable
