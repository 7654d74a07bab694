-- ===== src/Instruction/Opcode.antt =====
-- `enum class Instruction` of evmtrans/Instruction.h.
use evmbt.Prelude.{ℕ}

pub data Instruction : Type 0 where
  stop_instr : Instruction
  add_instr : Instruction
  mul_instr : Instruction
  sub_instr : Instruction
  div_instr : Instruction
  sdiv_instr : Instruction
  mod_instr : Instruction
  smod_instr : Instruction
  addmod_instr : Instruction
  mulmod_instr : Instruction
  exp_instr : Instruction
  signextend_instr : Instruction
  lt_instr : Instruction
  gt_instr : Instruction
  slt_instr : Instruction
  sgt_instr : Instruction
  eq_instr : Instruction
  iszero_instr : Instruction
  and_instr : Instruction
  or_instr : Instruction
  xor_instr : Instruction
  not_instr : Instruction
  byte_instr : Instruction
  shl_instr : Instruction
  shr_instr : Instruction
  sar_instr : Instruction
  sha3_instr : Instruction
  address_instr : Instruction
  balance_instr : Instruction
  origin_instr : Instruction
  caller_instr : Instruction
  callvalue_instr : Instruction
  calldataload_instr : Instruction
  calldatasize_instr : Instruction
  calldatacopy_instr : Instruction
  codesize_instr : Instruction
  codecopy_instr : Instruction
  gasprice_instr : Instruction
  extcodesize_instr : Instruction
  extcodecopy_instr : Instruction
  returndatasize_instr : Instruction
  returndatacopy_instr : Instruction
  extcodehash_instr : Instruction
  blockhash_instr : Instruction
  coinbase_instr : Instruction
  timestamp_instr : Instruction
  number_instr : Instruction
  difficulty_instr : Instruction
  gaslimit_instr : Instruction
  chainid_instr : Instruction
  selfbalance_instr : Instruction
  basefee_instr : Instruction
  pop_instr : Instruction
  mload_instr : Instruction
  mstore_instr : Instruction
  mstore8_instr : Instruction
  sload_instr : Instruction
  sstore_instr : Instruction
  jump_instr : Instruction
  jumpi_instr : Instruction
  pc_instr : Instruction
  msize_instr : Instruction
  gas_instr : Instruction
  jumpdest_instr : Instruction
  push1_instr : Instruction
  push2_instr : Instruction
  push3_instr : Instruction
  push4_instr : Instruction
  push5_instr : Instruction
  push6_instr : Instruction
  push7_instr : Instruction
  push8_instr : Instruction
  push9_instr : Instruction
  push10_instr : Instruction
  push11_instr : Instruction
  push12_instr : Instruction
  push13_instr : Instruction
  push14_instr : Instruction
  push15_instr : Instruction
  push16_instr : Instruction
  push17_instr : Instruction
  push18_instr : Instruction
  push19_instr : Instruction
  push20_instr : Instruction
  push21_instr : Instruction
  push22_instr : Instruction
  push23_instr : Instruction
  push24_instr : Instruction
  push25_instr : Instruction
  push26_instr : Instruction
  push27_instr : Instruction
  push28_instr : Instruction
  push29_instr : Instruction
  push30_instr : Instruction
  push31_instr : Instruction
  push32_instr : Instruction
  dup1_instr : Instruction
  dup2_instr : Instruction
  dup3_instr : Instruction
  dup4_instr : Instruction
  dup5_instr : Instruction
  dup6_instr : Instruction
  dup7_instr : Instruction
  dup8_instr : Instruction
  dup9_instr : Instruction
  dup10_instr : Instruction
  dup11_instr : Instruction
  dup12_instr : Instruction
  dup13_instr : Instruction
  dup14_instr : Instruction
  dup15_instr : Instruction
  dup16_instr : Instruction
  swap1_instr : Instruction
  swap2_instr : Instruction
  swap3_instr : Instruction
  swap4_instr : Instruction
  swap5_instr : Instruction
  swap6_instr : Instruction
  swap7_instr : Instruction
  swap8_instr : Instruction
  swap9_instr : Instruction
  swap10_instr : Instruction
  swap11_instr : Instruction
  swap12_instr : Instruction
  swap13_instr : Instruction
  swap14_instr : Instruction
  swap15_instr : Instruction
  swap16_instr : Instruction
  log0_instr : Instruction
  log1_instr : Instruction
  log2_instr : Instruction
  log3_instr : Instruction
  log4_instr : Instruction
  create_instr : Instruction
  call_instr : Instruction
  callcode_instr : Instruction
  return_instr : Instruction
  delegatecall_instr : Instruction
  create2_instr : Instruction
  staticcall_instr : Instruction
  revert_instr : Instruction
  suicide_instr : Instruction

-- `static_cast<uint8_t>`
abbrev pub code : Instruction → ℕ
code stop_instr = 0x00
code add_instr = 0x01
code mul_instr = 0x02
code sub_instr = 0x03
code div_instr = 0x04
code sdiv_instr = 0x05
code mod_instr = 0x06
code smod_instr = 0x07
code addmod_instr = 0x08
code mulmod_instr = 0x09
code exp_instr = 0x0a
code signextend_instr = 0x0b
code lt_instr = 0x10
code gt_instr = 0x11
code slt_instr = 0x12
code sgt_instr = 0x13
code eq_instr = 0x14
code iszero_instr = 0x15
code and_instr = 0x16
code or_instr = 0x17
code xor_instr = 0x18
code not_instr = 0x19
code byte_instr = 0x1a
code shl_instr = 0x1b
code shr_instr = 0x1c
code sar_instr = 0x1d
code sha3_instr = 0x20
code address_instr = 0x30
code balance_instr = 0x31
code origin_instr = 0x32
code caller_instr = 0x33
code callvalue_instr = 0x34
code calldataload_instr = 0x35
code calldatasize_instr = 0x36
code calldatacopy_instr = 0x37
code codesize_instr = 0x38
code codecopy_instr = 0x39
code gasprice_instr = 0x3a
code extcodesize_instr = 0x3b
code extcodecopy_instr = 0x3c
code returndatasize_instr = 0x3d
code returndatacopy_instr = 0x3e
code extcodehash_instr = 0x3f
code blockhash_instr = 0x40
code coinbase_instr = 0x41
code timestamp_instr = 0x42
code number_instr = 0x43
code difficulty_instr = 0x44
code gaslimit_instr = 0x45
code chainid_instr = 0x46
code selfbalance_instr = 0x47
code basefee_instr = 0x48
code pop_instr = 0x50
code mload_instr = 0x51
code mstore_instr = 0x52
code mstore8_instr = 0x53
code sload_instr = 0x54
code sstore_instr = 0x55
code jump_instr = 0x56
code jumpi_instr = 0x57
code pc_instr = 0x58
code msize_instr = 0x59
code gas_instr = 0x5a
code jumpdest_instr = 0x5b
code push1_instr = 0x60
code push2_instr = 0x61
code push3_instr = 0x62
code push4_instr = 0x63
code push5_instr = 0x64
code push6_instr = 0x65
code push7_instr = 0x66
code push8_instr = 0x67
code push9_instr = 0x68
code push10_instr = 0x69
code push11_instr = 0x6a
code push12_instr = 0x6b
code push13_instr = 0x6c
code push14_instr = 0x6d
code push15_instr = 0x6e
code push16_instr = 0x6f
code push17_instr = 0x70
code push18_instr = 0x71
code push19_instr = 0x72
code push20_instr = 0x73
code push21_instr = 0x74
code push22_instr = 0x75
code push23_instr = 0x76
code push24_instr = 0x77
code push25_instr = 0x78
code push26_instr = 0x79
code push27_instr = 0x7a
code push28_instr = 0x7b
code push29_instr = 0x7c
code push30_instr = 0x7d
code push31_instr = 0x7e
code push32_instr = 0x7f
code dup1_instr = 0x80
code dup2_instr = 0x81
code dup3_instr = 0x82
code dup4_instr = 0x83
code dup5_instr = 0x84
code dup6_instr = 0x85
code dup7_instr = 0x86
code dup8_instr = 0x87
code dup9_instr = 0x88
code dup10_instr = 0x89
code dup11_instr = 0x8a
code dup12_instr = 0x8b
code dup13_instr = 0x8c
code dup14_instr = 0x8d
code dup15_instr = 0x8e
code dup16_instr = 0x8f
code swap1_instr = 0x90
code swap2_instr = 0x91
code swap3_instr = 0x92
code swap4_instr = 0x93
code swap5_instr = 0x94
code swap6_instr = 0x95
code swap7_instr = 0x96
code swap8_instr = 0x97
code swap9_instr = 0x98
code swap10_instr = 0x99
code swap11_instr = 0x9a
code swap12_instr = 0x9b
code swap13_instr = 0x9c
code swap14_instr = 0x9d
code swap15_instr = 0x9e
code swap16_instr = 0x9f
code log0_instr = 0xa0
code log1_instr = 0xa1
code log2_instr = 0xa2
code log3_instr = 0xa3
code log4_instr = 0xa4
code create_instr = 0xf0
code call_instr = 0xf1
code callcode_instr = 0xf2
code return_instr = 0xf3
code delegatecall_instr = 0xf4
code create2_instr = 0xf5
code staticcall_instr = 0xfa
code revert_instr = 0xfd
code suicide_instr = 0xff
