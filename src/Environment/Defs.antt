-- ===== src/Environment/Defs.antt =====
-- The environment cases of `compileBasicBlock`, and EEIModule's conversion of byte order.
use evmbt.Prelude.{
  ℕ, zero, suc, ◌+◌, ◌-◌, ◌*◌, ◌%◌, ◌^◌, List, ◌∷◌, Option, leb, ◌&&◌, none, some, ltb, ◌==◌, ◌||◌,
  if◌then◌else◌,
}
use evmbt.Lift.Interface.{Builder}

-- The imported functions.
pub data HostFunction : Type 0 where
  get_gas_left : HostFunction
  get_address : HostFunction
  get_caller : HostFunction
  get_tx_origin : HostFunction
  get_block_coinbase : HostFunction
  get_tx_gas_price : HostFunction
  get_block_difficulty : HostFunction
  get_block_gas_limit : HostFunction
  get_chain_id : HostFunction
  get_self_balance : HostFunction
  get_basefee : HostFunction
  get_block_number : HostFunction
  get_block_timestamp : HostFunction
  get_call_value : HostFunction
  get_call_data_size : HostFunction
  get_return_data_size : HostFunction

-- The width of the number that a function returns, or writes behind its pointer.
abbrev pub number_width : HostFunction → ℕ
number_width get_gas_left = 64
number_width get_address = 160
number_width get_caller = 160
number_width get_tx_origin = 160
number_width get_block_coinbase = 160
number_width get_tx_gas_price = 128
number_width get_block_difficulty = 256
number_width get_block_gas_limit = 64
number_width get_chain_id = 64
number_width get_self_balance = 128
number_width get_basefee = 64
number_width get_block_number = 64
number_width get_block_timestamp = 64
number_width get_call_value = 128
number_width get_call_data_size = 32
number_width get_return_data_size = 32

-- What the cases emit around an imported function. `query f w` is an alloca of `w` bits, a call of
-- `f` with its address and a load from it; `call f` is a call of `f` for its result.
pub record Eei (Val : Type 0) : Type 0 where
  pub query : HostFunction → ℕ → Val
  pub call : HostFunction → Val
  -- `dyn_cast<ConstantInt>`, and `getInt` of its `byteSwap` where that is defined
  pub swapped_constant : Val → Option Val

pub data EnvironmentInstruction : Type 0 where
  gas_ins : EnvironmentInstruction
  address_ins : EnvironmentInstruction
  caller_ins : EnvironmentInstruction
  origin_ins : EnvironmentInstruction
  coinbase_ins : EnvironmentInstruction
  gasprice_ins : EnvironmentInstruction
  difficulty_ins : EnvironmentInstruction
  gaslimit_ins : EnvironmentInstruction
  chainid_ins : EnvironmentInstruction
  selfbalance_ins : EnvironmentInstruction
  basefee_ins : EnvironmentInstruction
  number_ins : EnvironmentInstruction
  timestamp_ins : EnvironmentInstruction
  callvalue_ins : EnvironmentInstruction
  calldatasize_ins : EnvironmentInstruction
  returndatasize_ins : EnvironmentInstruction
  codesize_ins : EnvironmentInstruction
  pc_ins : EnvironmentInstruction

module _ {Val : Type 0} (B : Builder Val) where
  -- `Data[I]` of `initBswapI256`.
  abbrev pub swap_data : Val → ℕ → Val
  swap_data arg i =
      let shifted =
        if ltb i 16
        then B.shl arg (B.const 256 (248 - i * 16))
        else B.lshr arg (B.const 256 (i * 16 - 248)) in
      if i == 0 || i == 31 then shifted else B.and shifted (B.const 256 (0xff * 2 ^ ((31 - i) * 8)))

  -- The loop over `Data` from index `i` on, for `n` more elements.
  unfoldable pub swap_loop : Val → ℕ → ℕ → Val → Val
  swap_loop arg zero i result = result
  swap_loop arg (suc n) i result = swap_loop arg n (i + 1) (B.or result (swap_data arg i))

  -- The emitted function `solidity.bswapi256`.
  unfoldable pub bswap256 : Val → Val
  unfolding swap_loop
  bswap256 arg = swap_loop arg 30 2 (B.or (swap_data arg 0) (swap_data arg 1))

module _ {Val : Type 0} (B : Builder Val) (E : Eei Val) where
  -- `emitEndianConvert`; of a constant, `byteSwap` asserts a width of at least 16 that 16 divides.
  unfoldable pub emit_endian_convert : Val → Option Val
  unfolding bswap256
  emit_endian_convert v =
      let w = B.width v in
      let ext = if ltb 256 w then B.trunc v 256 else B.zext v 256 in
      let placed = if w == 256 then ext else B.shl ext (B.const 256 (256 - w)) in
      elim (E.swapped_constant v) [
        | some c ↦ if leb 16 w && w % 16 == 0 then some c else none
        | none ↦ some (B.trunc (bswap256 B placed) w)
      ]

  -- The zero extension of a converted value.
  abbrev pub widened : Option Val → Option Val
  widened none = none
  widened (some v) = some (B.zext v 256)

  -- The value that a case pushes, in a code of `size` bytes at the instruction `pc`. The PC case
  -- casts a constant to an instruction, which asserts.
  unfoldable pub environment_value : ℕ → ℕ → EnvironmentInstruction → Option Val
  unfolding emit_endian_convert
  environment_value size pc gas_ins = some (B.zext (E.call get_gas_left) 256)
  environment_value size pc address_ins = some (B.zext (E.query get_address 160) 256)
  environment_value size pc caller_ins = widened (emit_endian_convert (E.query get_caller 160))
  environment_value size pc origin_ins = widened (emit_endian_convert (E.query get_tx_origin 160))
  environment_value size pc coinbase_ins = some (B.zext (E.query get_block_coinbase 160) 256)
  environment_value size pc gasprice_ins = some (B.zext (E.query get_tx_gas_price 128) 256)
  environment_value size pc difficulty_ins = some (E.query get_block_difficulty 256)
  environment_value size pc gaslimit_ins = some (B.zext (E.call get_block_gas_limit) 256)
  environment_value size pc chainid_ins = some (B.zext (E.call get_chain_id) 256)
  environment_value size pc selfbalance_ins = some (E.query get_self_balance 128)
  environment_value size pc basefee_ins = some (B.zext (E.call get_basefee) 256)
  environment_value size pc number_ins = some (B.zext (E.call get_block_number) 256)
  environment_value size pc timestamp_ins = some (B.zext (E.call get_block_timestamp) 256)
  environment_value size pc callvalue_ins = some (E.query get_call_value 128)
  environment_value size pc calldatasize_ins = some (E.call get_call_data_size)
  environment_value size pc returndatasize_ins = some (E.call get_return_data_size)
  environment_value size pc codesize_ins = some (B.const 32 (size % 2 ^ 32))
  environment_value size pc pc_ins = none

  abbrev pub pushed : Option Val → List Val → Option (List Val)
  pushed none stack = none
  pushed (some v) stack = some (v ∷ stack)

  unfoldable pub compile_environment : ℕ → ℕ → EnvironmentInstruction → List Val → Option (List Val)
  unfolding environment_value
  compile_environment size pc ins stack = pushed (environment_value size pc ins) stack
