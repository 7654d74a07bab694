-- ===== src/Effects/Cases.antt =====
-- The cases that reach memory, storage, accounts and data. `answer` is the environment, and
-- `code_base` the address of the global `evmCode`.
use evmbt.Prelude.{Bool, none, some, if◌then◌else◌, ℕ, ◌+◌, ◌-◌, ◌*◌, ◌%◌, ◌^◌, ltb, if◌then◌else◌}
use evmbt.Stack.Defs.{Value}
use evmbt.Environment.Mirror.{byte}
use evmbt.Memcpy.Defs.{memcpy}
use evmbt.Effects.Bytes.{
  store_bytes, load_bytes, word256, loaded, converted, narrow, zero_extend, pointer, same_type,
  exactly,
}
use evmbt.Effects.Monad.{
  Answer, Emit, ◌>>=◌, ◌>>◌, check, pop_value, push_value, read_memory, write_memory, ask, tell,
  get_gas_left, call_static, read_return_data, storage_load, storage_store, get_block_hash,
  get_external_balance, get_external_code_size, get_external_code_hash, call_data_copy,
  return_data_copy, external_code_copy, read_call_data,
}

-- `CreateBitCast` to a vector of 32 bytes, which takes 256 bits.
abbrev pub element : Value → ℕ → ℕ
element bytes i = byte i bytes.word

module _ {H : Type 0} where
  -- The case BYTE. An index that is too large is cut to 5 bits, and the result of it not taken.
  unfoldable pub compile_byte : Emit H (Unit {0})
  unfolding pop_value push_value
  compile_byte = do
    idx ← pop_value
    operand ← pop_value
    check (same_type idx (word256 32))
    bytes ← check (exactly 256 (converted operand))
    let found = element bytes (idx.word % 2 ^ 5)
    push_value (word256 (if ltb idx.word 32 then found else 0))

  unfoldable pub compile_mload : Emit H (Unit {0})
  unfolding pop_value push_value
  compile_mload = do
    addr ← pop_value
    word ← read_memory (load_bytes 32 (pointer addr))
    push_value (converted (word256 word))

  unfoldable pub compile_mstore : Emit H (Unit {0})
  unfolding pop_value
  compile_mstore = do
    addr ← pop_value
    value ← pop_value
    word ← check (zero_extend 256 value)
    write_memory (store_bytes 32 (pointer addr) (converted word).word)

  -- `constant`: the truncated value is a `ConstantInt`, of which `byteSwap` asserts 16 bits or more.
  unfoldable pub compile_mstore8 : Bool → Emit H (Unit {0})
  unfolding pop_value
  compile_mstore8 constant = do
    addr ← pop_value
    value ← pop_value
    word ← check (narrow 8 value)
    byte ← check (if constant then none else some (converted word))
    write_memory (store_bytes 1 (pointer addr) byte.word)

  unfoldable pub compile_msize : Emit H (Unit {0})
  unfolding push_value
  compile_msize s = push_value (loaded 256 s.world.memory_size) s

  unfoldable pub compile_codecopy : ℕ → Emit H (Unit {0})
  unfolding pop_value
  compile_codecopy code_base = do
    dest_mem_idx ← pop_value
    src_value ← pop_value
    req_value ← pop_value
    src_idx ← check (narrow 32 src_value)
    req_bytes ← check (narrow 32 req_value)
    copy ←
        read_memory
          (memcpy (pointer dest_mem_idx) ((code_base + src_idx.word) % 2 ^ 32) req_bytes.word)
    memory ← check copy
    write_memory (λ old. memory)

module _ {H : Type 0} (answer : Answer H) where
  -- The emitted function `solidity.keccak256`: a call of the contract 9.
  unfoldable pub keccak256 : ℕ → ℕ → Emit H ℕ
  keccak256 ptr length = do
    fee ← ask answer get_gas_left
    tell answer (call_static (fee % 2 ^ 64) (9 * 2 ^ 152) ptr length)
    ask answer (read_return_data 0 32)

  unfoldable pub compile_sha3 : Emit H (Unit {0})
  unfolding pop_value push_value keccak256
  compile_sha3 = do
    in_off ← pop_value
    size ← pop_value
    in_size ← check (narrow 32 size)
    hash ← keccak256 (pointer in_off) in_size.word
    push_value (converted (loaded 256 hash))

  unfoldable pub compile_sload : Emit H (Unit {0})
  unfolding pop_value push_value
  compile_sload = do
    value ← pop_value
    index ← check (exactly 256 value)
    found ← ask answer (storage_load (converted index).word)
    push_value (converted (loaded 256 found))

  unfoldable pub compile_sstore : Emit H (Unit {0})
  unfolding pop_value
  compile_sstore = do
    index_value ← pop_value
    stored_value ← pop_value
    index ← check (zero_extend 256 index_value)
    value ← check (zero_extend 256 stored_value)
    tell answer (storage_store (converted index).word (converted value).word)

  unfoldable pub compile_blockhash : Emit H (Unit {0})
  unfolding pop_value push_value
  compile_blockhash = do
    value ← pop_value
    check (same_type value (word256 (2 ^ 63 - 1)))
    number ← check (narrow 64 value)
    found ← ask answer (get_block_hash number.word)
    let hash = word256 (if ltb (2 ^ 63 - 1) value.word then 0 else found % 2 ^ 256)
    push_value (converted hash)

  unfoldable pub compile_balance : Emit H (Unit {0})
  unfolding pop_value push_value
  compile_balance = do
    value ← pop_value
    address ← check (narrow 160 value)
    balance ← ask answer (get_external_balance address.word)
    push_value (loaded 128 balance)

  unfoldable pub compile_extcodesize : Emit H (Unit {0})
  unfolding pop_value push_value
  compile_extcodesize = do
    value ← pop_value
    address ← check (narrow 160 value)
    size ← ask answer (get_external_code_size (converted address).word)
    push_value (loaded 32 size)

  unfoldable pub compile_extcodehash : Emit H (Unit {0})
  unfolding pop_value push_value
  compile_extcodehash = do
    value ← pop_value
    address ← check (narrow 160 value)
    hash ← ask answer (get_external_code_hash address.word)
    push_value (loaded 32 hash)

  unfoldable pub compile_calldatacopy : Emit H (Unit {0})
  unfolding pop_value
  compile_calldatacopy = do
    dest_mem_idx ← pop_value
    src_value ← pop_value
    req_value ← pop_value
    src_idx ← check (narrow 32 src_value)
    req_bytes ← check (narrow 32 req_value)
    tell answer (call_data_copy (pointer dest_mem_idx) src_idx.word req_bytes.word)

  unfoldable pub compile_returndatacopy : Emit H (Unit {0})
  unfolding pop_value
  compile_returndatacopy = do
    dest_mem_idx ← pop_value
    src_value ← pop_value
    req_value ← pop_value
    src_idx ← check (narrow 32 src_value)
    req_bytes ← check (narrow 32 req_value)
    tell answer (return_data_copy (pointer dest_mem_idx) src_idx.word req_bytes.word)

  unfoldable pub compile_extcodecopy : Emit H (Unit {0})
  unfolding pop_value
  compile_extcodecopy = do
    addr_value ← pop_value
    dest_mem_idx ← pop_value
    src_value ← pop_value
    req_value ← pop_value
    addr ← check (narrow 160 addr_value)
    src_idx ← check (narrow 32 src_value)
    req_bytes ← check (narrow 32 req_value)
    tell answer (external_code_copy addr.word (pointer dest_mem_idx) src_idx.word req_bytes.word)

  unfoldable pub compile_calldataload : Emit H (Unit {0})
  unfolding pop_value push_value
  compile_calldataload = do
    value ← pop_value
    idx ← check (narrow 32 value)
    word ← ask answer (read_call_data idx.word 32)
    push_value (converted (loaded 256 word))
